-- ===== src/Server/Hook.antt =====
-- The whole way of a request in src/web_server/apache_httpd/mod_mp.c: the two runs of the hook
-- mp_post_config over the servers of the process, and then mp_handler.
use mod_mp.Base.{◌==◌, if◌then◌else◌, ◌≡◌, ◌≢◌, ◌⊎◌, true, false, some, List, [], ◌∷◌, ◌++◌}
use mod_mp.Apr.{Apr, AprLaws}
use mod_mp.ErrorMessages.{ErrorMessages}
use mod_mp.ErrorMessages.Table.{recorded}
use mod_mp.Input.{Input}
use mod_mp.Server.{SrvCfg, Host, Request, declined, mod_mp_init, mp_handler}
use mod_mp.Server.Startup.{IsSegment, can_start}
use mod_mp.Server.Handler.{AnswersOrFaults, no_indexer}

-- The segments of all servers have the declared size.
abbrev pub AreSegments : List (Host × SrvCfg) → Type 0
AreSegments [] = Unit {0}
AreSegments ((host, c) ∷ servers) = IsSegment host.segment × AreSegments servers

module _ (apr : Apr) (laws : AprLaws apr) where
  -- How a server that was `c` before the hook and is `after` behind it handles a request. If it is
  -- enabled and can start, it gives the answer of Handler with the messages of its start.
  pub Serves : Request apr → Input apr → Host → SrvCfg → SrvCfg → Type 0
  Serves r input host c after =
      ((c.enable ≡ 1)
        × (can_start host ≡ true)
        × (em : ErrorMessages) × (after.error_messages ≡ some em)
        × AnswersOrFaults apr r.output_filters (recorded em ++ no_indexer ∷ [])
            (mp_handler apr after r (some input)))
      ⊎ (((c.enable ≢ 1) ⊎ (can_start host ≡ false))
          × (mp_handler apr after r (some input) ≡ some declined))

  -- The same servers on the same hosts, each of them serving in this way.
  pub AllServe : Request apr → Input apr → List (Host × SrvCfg) → List (Host × SrvCfg) → Type 0
  AllServe r input [] [] = Unit {0}
  AllServe r input [] (_ ∷ _) = ⊥
  AllServe r input (_ ∷ _) [] = ⊥
  AllServe r input ((host, c) ∷ servers) ((host', after) ∷ others) =
      ((host' ≡ host) × Serves r input host c after) × AllServe r input servers others

  -- What the second run makes of a server.
  abbrev run_once : Host → SrvCfg → SrvCfg
  run_once host c = if c.enable == 0 then c else (mod_mp_init apr host c).1
