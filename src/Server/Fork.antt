-- ===== src/Server/Fork.antt =====
-- What the fork in mp_child_init of src/web_server/apache_httpd/mod_mp.c makes of a server.
use mod_mp.Base.{
  if◌then◌else◌, eq-cases, length, all, ℤ, success, negsuc, ℕ, suc, ◌≤◌, ◌≡◌, refl, ap, ◌∙◌, ◌≢◌,
  ◌⊎◌, inl, inr, Bool, true, false, ◌&&◌, Option, some, List, [], ◌∷◌, map, arith,
}
use mod_mp.Apr.{Apr}
use mod_mp.ErrorMessages.{ErrorMessages, error_messages_on_fork}
use mod_mp.ErrorMessages.Invariant.{IsValid}
use mod_mp.Indexers.{Indexer}
use mod_mp.Indexers.Registry.{index_manager_on_fork-map, is_unnamed}
use mod_mp.Server.{SrvCfg, fork_mod_mp, child_init}
use mod_mp.Server.Startup.{IsReady}

-- The manager after the fork.
unnamed_map :
    (child_pool : ℕ) (nodes : List Indexer)
    → all is_unnamed (map {A = Indexer} (λ indexer. record indexer { pool = child_pool }) nodes)
      ≡ all is_unnamed nodes
unfolding is_unnamed
unnamed_map child_pool [] = refl
unnamed_map child_pool (x ∷ nodes) = ap (λ b. is_unnamed x && b) (unnamed_map child_pool nodes)

length-map {ℓ κ} :
    {A : Type ℓ} {B : Type κ} (f : A → B) (xs : List A) → length (map f xs) ≡ length xs
length-map f [] = refl
length-map f (x ∷ xs) = ap suc (length-map f xs)

-- The server with the given table, and with the pool of the child in every indexer.
pub rejoined : ErrorMessages → ℕ → (c : SrvCfg) → IsReady c → SrvCfg
rejoined own child_pool c ready = record c {
  error_messages = some own;
  index_manager = some (record ready.manager {
    nodes = map {A = Indexer} (λ indexer. record indexer { pool = child_pool }) ready.manager.nodes;
  });
}

-- The process goes on with a server that is ready. It is the one before where that is off or the
-- process is the one that started it; in another process it has the table of the segment if that
-- was attached and its own table if not, and every indexer has the pool of the child.
pub Forked : Bool → ErrorMessages → ℕ → (c : SrvCfg) → IsReady c → Option SrvCfg → Type 0
Forked attached segment own_pid c ready r =
    (forked : SrvCfg) × (r ≡ some forked)
    × IsReady forked
    × ((((c.enable ≡ 0) ⊎ (own_pid ≡ c.pid)) × (forked ≡ c))
        ⊎ ((c.enable ≢ 0)
            × (own_pid ≢ c.pid)
            × (forked ≡ rejoined (if attached then segment else ready.em) own_pid c ready)))

module _ (apr : Apr) where
  -- By what the attach of the table gave.
  fork_mod_mp-rejoined :
      (attached : Bool) (segment own : ErrorMessages) (status : ℤ) (child_pool : ℕ) (c : SrvCfg)
      (ready : IsReady c)
      → error_messages_on_fork attached segment ready.em ≡ some (status, own)
      → IsValid own
      → own.num_errors ≤ 1
      → own.shm_file ≡ some c.errors_shm_file
      → (fork_mod_mp apr attached segment child_pool c ≡ some (rejoined own child_pool c ready))
        × IsReady (rejoined own child_pool c ready)
  unfolding fork_mod_mp rejoined
  fork_mod_mp-rejoined attached segment own status child_pool c ready e v n f =
      let forked =
        index_manager_on_fork-map attached segment ready.em c.errors_shm_file ready.manager
          child_pool ready.file in
      (
        rw (fork_mod_mp, ready.has_em, e, ready.has_manager, forked) refl,
        record {
          em = own;
          has_em = refl;
          valid = v;
          few = n;
          file = f;
          manager = _;
          has_manager = refl;
          one = ready.one;
          counted = length-map _ ready.manager.nodes ∙ ready.counted;
          unnamed = unnamed_map child_pool ready.manager.nodes ∙ ready.unnamed;
        },
      )

  fork_mod_mp-IsReady :
      (attached : Bool) (segment : ErrorMessages) (child_pool : ℕ) (c : SrvCfg)
      → IsValid segment
      → segment.num_errors ≤ 1
      → segment.shm_file ≡ some c.errors_shm_file
      → (ready : IsReady c)
      → (fork_mod_mp apr attached segment child_pool c
          ≡ some (rejoined (if attached then segment else ready.em) child_pool c ready))
        × IsReady (rejoined (if attached then segment else ready.em) child_pool c ready)
  unfolding error_messages_on_fork
  fork_mod_mp-IsReady true segment child_pool c v n f ready =
      fork_mod_mp-rejoined true segment segment success child_pool c ready
        (rw (error_messages_on_fork, ready.file) refl) v n f
  fork_mod_mp-IsReady false segment child_pool c v n f ready =
      fork_mod_mp-rejoined false segment ready.em (negsuc 0) child_pool c ready
        (ground (arith, ready.file)) ready.valid ready.few ready.file

  -- For a ready server, where the segment holds a well-formed table of at most one message with
  -- the server's file, mp_child_init does not fault. If the server is off or the process is the one
  -- that started it, the server stays as it is. In any other process the table becomes that of the
  -- segment if it was attached and stays the server's own if not, every indexer gets the pool of
  -- the child, and nothing else changes. The server is ready in all cases.
  pub child_init-Forked :
      (attached : Bool) (segment : ErrorMessages) (own_pid : ℕ) (c : SrvCfg)
      → IsValid segment
      → segment.num_errors ≤ 1
      → segment.shm_file ≡ some c.errors_shm_file
      → (ready : IsReady c)
      → Forked attached segment own_pid c ready (child_init apr attached segment own_pid c)
  unfolding child_init Forked
  child_init-Forked attached segment own_pid c v n f ready = elim (eq-cases c.enable 0) [
    | inl off ↦ (c, ground (arith, off), ready, inl (inl off, refl))
    | inr on ↦ elim (eq-cases own_pid c.pid) [
      | inl same ↦ (c, ground (arith, same), ready, inl (inr same, refl))
      | inr new ↦
          let (forked, ready_after) = fork_mod_mp-IsReady attached segment own_pid c v n f ready in
          (_, ground (arith, on, new) ∙ forked, ready_after, inr (on, new, refl))
    ]
  ]
