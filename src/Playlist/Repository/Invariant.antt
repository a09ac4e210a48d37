-- ===== src/Playlist/Repository/Invariant.antt =====
-- The constraints of schema `playlist` under the methods of the repository.
use icyre.Prelude.{
  ℕ, ◌≡◌, refl, sym, ◌∙◌, inl, inr, Bool, true, false, Option, none, some, List, arith, Bool-cases,
}
use icyre.Platform.Postgres.{ok, World, select}
use icyre.Platform.Postgres.Inversion.{bind-ok, select-ok, raise-ok}
use icyre.Platform.Postgres.Atomic.{ReadsOnly, reads_rules}
use icyre.Platform.Postgres.Keeps.{Keeps, Keeps-update, Keeps-attempt, Keeps-bind, keeps_rules}
use icyre.Platform.Postgres.Knows.{
  KeepsFrom, KeepsFrom-Keeps, KeepsFrom-update, KeepsFrom-if, KeepsFrom-bind, Tells, Keeps-Tells,
}
use icyre.Platform.Outbox.{Db}
use mathlib.Core.Path.{subst}
use icyre.Playlist.{Error, not_found, Playlist, Track, check_order}
use icyre.Playlist.Title.{IsTitle}
use icyre.Playlist.Repository
use icyre.Playlist.Repository.{
  Repo, put_tables, lock, touch_playlist, locked, insert_track, delete_track, append_track_tx,
  remove_track_tx, reorder_tx, appended,
}
use icyre.Playlist.Repository.Sql.{Tables, insert_playlist, has_playlist, has_track, tracks_of}
use icyre.Playlist.Repository.WellFormed.{
  IsWellFormed, insert_playlist-IsWellFormed, set_title-IsWellFormed, touch-IsWellFormed,
  delete_playlist-IsWellFormed, remove_track-IsWellFormed,
}
use icyre.Playlist.Repository.Positions.{append_track-IsWellFormed, reorder-IsWellFormed}

abbrev pub Fine : {M : Type 0} → Db Tables M → Type 0
Fine d = IsWellFormed d.tables

module _ {M X : Type 0} where
  touch-Fine : (id at : ℕ) → Keeps {X = X} (Fine {M = M}) (touch_playlist id at)
  unfolding touch_playlist
  touch-Fine id at = Keeps-update _ _ (λ d w. touch-IsWellFormed id at d.tables w)

  locked-ok :
      (there : Bool) (w w₁ : World (Db Tables M) X) (u : Unit {0})
      → locked there w ≡ (ok u, w₁)
      → there ≡ true
  unfolding locked
  locked-ok true w w₁ u e = refl
  locked-ok false w w₁ u e = absurd (raise-ok not_found u w w₁ e)

  locked-ReadsOnly : (there : Bool) → ReadsOnly {D = Db Tables M} {X = X} (locked there)
  unfolding locked
  locked-ReadsOnly true = search reads_rules
  locked-ReadsOnly false = search reads_rules

  lock-Tells :
      (id : ℕ) → Tells {D = Db Tables M} {X = X} (λ _ d. has_playlist id d.tables ≡ true) (lock id)
  unfolding lock
  lock-Tells id = record {
    reads = search (reads_rules, locked-ReadsOnly);
    tells = λ w u e.
        let (there, w₁, read, rest) = bind-ok _ _ w (lock id w).1 u (λ i. (e i, (lock id w).1)) in
        let (found, _, _) = select-ok _ w w₁ there read in
        sym found ∙ locked-ok there w₁ (lock id w).1 u rest;
  }

  tracks-Tells :
      (id : ℕ)
      → Tells {D = Db Tables M} {X = X} {E = Error}
          (λ current d. current ≡ tracks_of id d.tables.playlist_tracks)
          (select λ d. tracks_of id d.tables.playlist_tracks)
  tracks-Tells id = record {
    reads = search reads_rules;
    tells = λ w a e.
        (select-ok _ w _ a
          (λ i. (e i, (select {E = Error} (λ d. tracks_of id d.tables.playlist_tracks) w).1))).0;
  }

  insert_track-Fine :
      (id : ℕ) (t : Track)
      → KeepsFrom {X = X}
          (λ (d : Db Tables M). has_playlist id d.tables ≡ true)
          Fine
          (insert_track id t)
  unfolding insert_track
  insert_track-Fine id t = KeepsFrom-update _ _ _ λ d there w.
      elim (Bool-cases (has_track id t.track_id d.tables)) [
        | inl old ↦ rw old w
        | inr new ↦ rw new (append_track-IsWellFormed id t d.tables there new w)
      ]

  appended-Fine :
      (id : ℕ) (t : Track) (o : Option ℕ) → Keeps {X = X} (Fine {M = M}) (appended id t o)
  appended-Fine id t none = search keeps_rules
  appended-Fine id t (some position) = search (keeps_rules, touch-Fine)

  pub append_track_tx-Fine :
      (id : ℕ) (t : Track) → Keeps {X = X} (Fine {M = M}) (append_track_tx id t)
  unfolding append_track_tx
  append_track_tx-Fine id t =
      Keeps-Tells _ (lock id) _ (lock-Tells id)
        λ _. KeepsFrom-bind _ (insert_track id t) _ (insert_track-Fine id t) (appended-Fine id t)

  pub lock-Fine : (id : ℕ) → Keeps {X = X} (Fine {M = M}) (lock id)
  unfolding lock locked
  lock-Fine id = record { at = λ w h. subst Fine (sym ((lock-Tells id).reads.at w)) h }

  delete_track-Fine : (id track_id : ℕ) → Keeps {X = X} (Fine {M = M}) (delete_track id track_id)
  unfolding delete_track
  delete_track-Fine id track_id =
      Keeps-update _ _ (λ d w. remove_track-IsWellFormed id track_id d.tables w)

  pub remove_track_tx-Fine :
      (id track_id at : ℕ) → Keeps {X = X} (Fine {M = M}) (remove_track_tx id track_id at)
  unfolding remove_track_tx
  remove_track_tx-Fine id track_id at =
      search (keeps_rules, lock-Fine, delete_track-Fine, touch-Fine)

  pub reorder_tx-Fine :
      (id : ℕ) (order : List ℕ) (at : ℕ) → Keeps {X = X} (Fine {M = M}) (reorder_tx id order at)
  unfolding reorder_tx
  reorder_tx-Fine id order at = Keeps-bind (lock id) _ (lock-Fine id) λ _.
      Keeps-Tells _ _ _ (tracks-Tells id) λ current.
        KeepsFrom-if _ (check_order current order) _ _
          (λ checked.
            KeepsFrom-bind _ _ _
              (KeepsFrom-update _ _ _
                λ d same w. reorder-IsWellFormed id order d.tables w (rw same at checked))
              (λ _. touch-Fine id at))
          (λ _. KeepsFrom-Keeps _ _ (search keeps_rules))

  pub update_title-Fine :
      (id : ℕ) (title : List ℕ) (at : ℕ)
      → IsTitle title
      → Keeps {X = X} (Fine {M = M}) (Repository.update_title id title at)
  unfolding Repository.update_title
  update_title-Fine id title at h =
      Keeps-bind _ _ (Keeps-update _ _ (λ d w. set_title-IsWellFormed id title at d.tables h w))
        λ n. search keeps_rules

  pub delete-Fine : (id : ℕ) → Keeps {X = X} (Fine {M = M}) (Repository.delete id)
  unfolding Repository.delete
  delete-Fine id =
      Keeps-bind _ _ (Keeps-update _ _ (λ d w. delete_playlist-IsWellFormed id d.tables w))
        λ n. search keeps_rules

  pub create-Fine :
      (p : Playlist) → IsTitle p.title → Keeps {X = X} (Fine {M = M}) (Repository.create p)
  unfolding Repository.create
  create-Fine p h =
      Keeps-attempt _ _ (λ d d' w e. inserted d d' w (insert_playlist p d.tables) refl e)
    where
      inserted :
          (d d' : Db Tables M)
          → Fine d
          → (o : Option Tables) → insert_playlist p d.tables ≡ o
          → put_tables d (insert_playlist p d.tables) ≡ some d'
          → Fine d'
      inserted d d' w none e k = cc
      inserted d d' w (some t) e k =
          let there : record d { tables = t } ≡ d' = ground (arith, e, k) in
          subst Fine there (insert_playlist-IsWellFormed p d.tables t h w e)
