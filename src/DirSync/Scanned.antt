-- ===== src/DirSync/Scanned.antt =====
-- What a run of sync_dir of src/indexers/music/dir_sync/dir_sync.c does with the files it finds.
use mod_mp.Base.{
  ◌==◌, if◌then◌else◌, Bool-cases, length, ℤ, is_nonzero, Bytes, ℕ, suc, ◌+◌, ◌≡◌, refl, sym, ap,
  ◌∙◌, ◌⊎◌, inl, inr, true, false, Option, none, some, List, [], ◌∷◌, arith,
}
use mod_mp.Apr.{Apr}
use mod_mp.TagReader.{FileEntry, Directory, Walk}
use mod_mp.TagReader.Collect.{IsReadable, files_in, with_files, read_dir-files_in}
use mod_mp.DirSync.{
  TypedSong, TagLibraries, SyncCalls, Sync, read_song, note_failure, count_file, sync_loop,
  end_transaction, sync_files, sync_dir, PoolAnswer, NumFiles, points_to, dangling,
}

module _ (apr : Apr) (tags : TagLibraries) (calls : SyncCalls) where
  -- The reader answers for every file, and a song keeps the database connected.
  pub record Steady (reads : FileEntry → ℤ × TypedSong) : Type 0 where
    pub answers : (file : FileEntry) → read_song apr tags calls file ≡ some (reads file)
    pub keeps :
        (db : calls.Db) (song : TypedSong)
        → calls.connected db ≡ true
        → calls.connected (calls.sync_song db song).1 ≡ true

  -- The songs whose tags were read, in the order of the files.
  pub read_songs : (FileEntry → ℤ × TypedSong) → List FileEntry → List TypedSong
  read_songs reads [] = []
  read_songs reads (file ∷ files) =
      let rest = read_songs reads files in
      if is_nonzero (reads file).0 then rest else (reads file).1 ∷ rest

  -- The database behind these songs.
  pub put_songs : List TypedSong → calls.Db → calls.Db
  put_songs [] db = db
  put_songs (song ∷ songs) db = put_songs songs (calls.sync_song db song).1

  -- The counter behind these files.
  pub last_index : List FileEntry → ℕ → ℕ → ℕ
  last_index [] files_synced old = old
  last_index (file ∷ files) files_synced old = last_index files (suc files_synced) files_synced

  -- The state behind the file that was read with a status that is not 0, ...
  passed : ℕ → ℕ → Sync apr tags calls → Sync apr tags calls
  passed files_synced num_files s = count_file apr tags calls files_synced num_files s

  -- ... and behind a song.
  stored : ℕ → ℕ → ℤ → TypedSong → Sync apr tags calls → Sync apr tags calls
  stored files_synced num_files rv song s =
      count_file apr tags calls files_synced num_files (record s {
        db = (calls.sync_song s.db song).1;
        error_messages =
            note_failure apr tags calls (calls.sync_song s.db song).0 song s.error_messages;
      })

  sync_loop-passed :
      (file : FileEntry) (files : List FileEntry) (k n : ℕ) (s : Sync apr tags calls)
      → (rv : ℤ) (song : TypedSong) → read_song apr tags calls file ≡ some (rv, song)
      → is_nonzero rv ≡ true
      → sync_loop apr tags calls (file ∷ files) k n s
        ≡ sync_loop apr tags calls files (suc k) n (passed k n s)
  unfolding sync_loop passed
  sync_loop-passed file files k n s rv song e z = rw (sync_loop, e, z) refl

  sync_loop-stored :
      (file : FileEntry) (files : List FileEntry) (k n : ℕ) (s : Sync apr tags calls)
      → (rv : ℤ) (song : TypedSong) → read_song apr tags calls file ≡ some (rv, song)
      → is_nonzero rv ≡ false
      → calls.connected s.db ≡ true
      → sync_loop apr tags calls (file ∷ files) k n s
        ≡ sync_loop apr tags calls files (suc k) n (stored k n rv song s)
  unfolding sync_loop stored
  sync_loop-stored file files k n s rv song e z c = rw (sync_loop, e, z, c) refl

  -- What the loop leaves.
  abbrev Done :
      (FileEntry → ℤ × TypedSong)
      → List FileEntry
      → ℕ
      → Sync apr tags calls
      → Sync apr tags calls
      → Type 0
  Done reads files k s after =
      (after.db ≡ put_songs (read_songs reads files) s.db)
      × (after.files_scanned ≡ last_index files k s.files_scanned)
      × (after.num_files ≡ s.num_files)

  sync_loop-Done :
      (reads : FileEntry → ℤ × TypedSong)
      → Steady reads
      → (files : List FileEntry) (k n : ℕ) (s : Sync apr tags calls) → calls.connected s.db ≡ true
      → (after : Sync apr tags calls) × (sync_loop apr tags calls files k n s ≡ some (true, after))
        × Done reads files k s after
  unfolding sync_loop read_songs put_songs last_index passed stored count_file
  sync_loop-Done reads steady [] k n s c = (s, refl, (refl, refl, refl))
  sync_loop-Done reads steady (file ∷ files) k n s c =
      elim (Bool-cases (is_nonzero (reads file).0)) [
        | inl z ↦
            let (after, done, (db, scanned, num)) =
              sync_loop-Done reads steady files (suc k) n (passed k n s) c in
            (
              after,
              sync_loop-passed file files k n s (reads file).0 (reads file).1 (steady.answers file)
                    z
                  ∙ done,
              (
                db
                    ∙ ap
                        (λ b.
                          put_songs
                            (if b
                              then read_songs reads files
                              else (reads file).1 ∷ read_songs reads files)
                            s.db)
                        (sym z),
                scanned,
                num,
              ),
            )
        | inr z ↦
            let (after, done, (db, scanned, num)) =
              sync_loop-Done reads steady files (suc k) n
                (stored k n (reads file).0 (reads file).1 s) (steady.keeps s.db (reads file).1 c) in
            (
              after,
              sync_loop-stored file files k n s (reads file).0 (reads file).1 (steady.answers file)
                    z c
                  ∙ done,
              (
                db
                    ∙ ap
                        (λ b.
                          put_songs
                            (if b
                              then read_songs reads files
                              else (reads file).1 ∷ read_songs reads files)
                            s.db)
                        (sym z),
                scanned,
                num,
              ),
            )
      ]

  last_index_lem :
      (file : FileEntry) (files : List FileEntry) (k old : ℕ)
      → last_index (file ∷ files) k old + 1 ≡ k + length (file ∷ files)
  unfolding last_index
  last_index_lem file [] k old = omega arith
  last_index_lem file (next ∷ files) k old = omega (arith, last_index_lem next files (suc k) k)

  scanned_all :
      (files : List FileEntry) (old scanned : ℕ)
      → scanned ≡ last_index files 0 old
      → (files ≡ []) ⊎ (scanned + 1 ≡ length files)
  scanned_all [] old scanned e = inl refl
  scanned_all (file ∷ files) old scanned e = inr (omega (arith, e, last_index_lem file files 0 old))

  -- The database behind a run over these files.
  pub synced : (FileEntry → ℤ × TypedSong) → List FileEntry → calls.Db → calls.Db
  synced reads files db =
      (calls.transaction_end (put_songs (read_songs reads files) (calls.transaction_start db).1)).1

  -- The status of the end of that run's transaction.
  pub end_status : (FileEntry → ℤ × TypedSong) → List FileEntry → calls.Db → ℕ
  end_status reads files db =
      (calls.transaction_end (put_songs (read_songs reads files) (calls.transaction_start db).1)).0

  -- The counter behind the end of the transaction: a dangling pointer if the status is 0.
  pub counter_after : ℕ → NumFiles → NumFiles
  counter_after rv num_files = if rv == 0 then dangling else num_files

  end_transaction_lem :
      (last : Sync apr tags calls)
      → let after = end_transaction apr tags calls (true, last) in
        (after.db ≡ (calls.transaction_end last.db).1)
        × (after.num_files ≡ counter_after (calls.transaction_end last.db).0 last.num_files)
        × (after.files_scanned ≡ last.files_scanned)
  unfolding end_transaction counter_after
  end_transaction_lem last = elim (Bool-cases ((calls.transaction_end last.db).0 == 0)) [
    | inl z ↦ rw z (refl, refl, refl)
    | inr z ↦ rw z (refl, refl, refl)
  ]

  sync_files-started :
      (w : Walk) (s : Sync apr tags calls)
      → (calls.transaction_start s.db).0 ≡ 0
      → sync_files apr tags calls w s
        ≡ elim (sync_loop apr tags calls w.files 0 w.count
              (record s { db = (calls.transaction_start s.db).1 }))
            as (λ _. Option (Sync apr tags calls)) [
              | none ↦ none
              | some r ↦ some (end_transaction apr tags calls r)
            ]
  unfolding sync_files
  sync_files-started w s e = rw (sync_files, e) refl

  sync_files-Done :
      (reads : FileEntry → ℤ × TypedSong) (w : Walk) (s : Sync apr tags calls)
      → Steady reads
      → (calls.transaction_start s.db).0 ≡ 0
      → calls.connected (calls.transaction_start s.db).1 ≡ true
      → (after : Sync apr tags calls) × (sync_files apr tags calls w s ≡ some after)
        × (after.db ≡ synced reads w.files s.db)
        × (after.num_files ≡ counter_after (end_status reads w.files s.db) s.num_files)
        × ((w.files ≡ []) ⊎ (after.files_scanned + 1 ≡ length w.files))
  unfolding synced end_status
  sync_files-Done reads w s steady e c =
      let (last, done, (db, scanned, num)) =
        sync_loop-Done reads steady w.files 0 w.count
          (record s { db = (calls.transaction_start s.db).1 }) c in
      let (end_db, end_num, end_scanned) = end_transaction_lem last in
      (
        end_transaction apr tags calls (true, last),
        sync_files-started w s e
            ∙ ap
                (λ o. elim o as (λ _. Option (Sync apr tags calls)) [
                  | none ↦ none
                  | some r ↦ some (end_transaction apr tags calls r)
                ])
                done,
        end_db ∙ ap (λ d. (calls.transaction_end d).1) db,
        end_num
            ∙ (ap (λ d. counter_after (calls.transaction_end d).0 last.num_files) db
                ∙ ap (λ n. counter_after (end_status reads w.files s.db) n) num),
        scanned_all w.files s.files_scanned _ (end_scanned ∙ scanned),
      )

  -- What a run leaves that finds these files.
  pub IsSynced :
      (FileEntry → ℤ × TypedSong)
      → List FileEntry
      → Sync apr tags calls
      → Sync apr tags calls
      → Type 0
  IsSynced reads files s after =
      (after.db ≡ synced reads files s.db)
      × (after.num_files ≡ counter_after (end_status reads files s.db) (points_to (length files)))
      × ((files ≡ []) ⊎ (after.files_scanned + 1 ≡ length files))

  found_count : (files : List FileEntry) → points_to (0 + length files) ≡ points_to (length files)
  found_count files = ap points_to (omega arith)

  -- Where the pool and the transaction can be made, every visible directory can be opened, the
  -- readers answer for every file and the database stays connected: the thread ends with the
  -- transaction closed behind exactly those songs whose tags could be read, each put into the
  -- database once and in the order of the walk. If that transaction ends with the status 0, then
  -- `num_files` is left pointing into the pool that was cleared, and otherwise at the number of
  -- files that were found; `files_scanned` is one less than that number, unless there was none.
  pub sync_dir-IsSynced :
      (reads : FileEntry → ℤ × TypedSong) (pool : PoolAnswer) (path : Bytes) (d : Directory)
      → (s : Sync apr tags calls) → Steady reads
      → IsReadable d
      → pool.rv ≡ 0
      → calls.connected s.db ≡ true
      → (calls.transaction_start s.db).0 ≡ 0
      → calls.connected (calls.transaction_start s.db).1 ≡ true
      → (after : Sync apr tags calls) × (sync_dir apr tags calls pool path d s ≡ some after)
        × IsSynced reads (files_in apr path d) s after
  unfolding sync_dir IsSynced with_files
  sync_dir-IsSynced reads pool path d s steady readable p c e c' =
      let w : Walk = record {
        files = [];
        at_last = true;
        count = 0;
        error_messages = s.error_messages;
      } in
      let found = with_files apr w (files_in apr path d) in
      let (after, done, db, num, scanned) =
        sync_files-Done reads found
          (record s { num_files = points_to found.count; error_messages = found.error_messages })
          steady e c' in
      (
        after,
        rw (sync_dir, p, c)
            (ap
                (λ o. elim o as (λ _. Option (Sync apr tags calls)) [
                  | none ↦ none
                  | some v ↦ sync_files apr tags calls v (record s {
                    num_files = points_to v.count;
                    error_messages = v.error_messages;
                  })
                ])
                (read_dir-files_in apr path d w readable refl)
              ∙ done),
        (
          db,
          num
              ∙ ap (λ n. counter_after (end_status reads (files_in apr path d) s.db) n)
                  (found_count (files_in apr path d)),
          scanned,
        ),
      )
