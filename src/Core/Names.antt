-- ===== src/Core/Names.antt =====
-- The handles that the host gets for the names of its configuration.
use mathlib.Core.Option.{some-injective}
use libpanaudia_core.Prelude.{
  Bool-cases, List, [], ap, arith, bytes_eq, bytes_eq_iff, drop, false, if◌then◌else◌, inl, inr,
  map, none, refl, some, suc, zero, ℕ, ◌+◌, ◌∙◌, ◌∷◌, ◌≡◌,
}
use libpanaudia_core.Core.{get_track, PanaudiaCore, configure}
use libpanaudia_core.Session.Track.{TrackConfig, Platform}
use libpanaudia_core.Session.State.{SessionConfig}
use libpanaudia_core.Session.Media.{nth}
use libpanaudia_core.Session.Configure.{
  new_track, bare_track, outbound_track, inbound_track, assign_name, find_name, name_tracks,
}
use libpanaudia_core.Session.Configure

-- No track of the list has the name.
abbrev pub IsAbsent : List ℕ → List TrackConfig → Type 0
IsAbsent name [] = Unit
IsAbsent name (tc ∷ tcs) = (bytes_eq tc.name name ≡ false) × IsAbsent name tcs

find_name_assigned :
    (name : List ℕ) (i : ℕ) (m : List (List ℕ × ℕ)) → find_name name (assign_name name i m) ≡ some i
unfolding find_name assign_name
find_name_assigned name i [] = rw ((bytes_eq_iff name name).1 refl) refl
find_name_assigned name i ((n, j) ∷ m) = elim (Bool-cases (bytes_eq n name)) [
  | inl same ↦ rw (same, same) refl
  | inr other ↦ rw (other, other) (find_name_assigned name i m)
]

find_name_other :
    (name n : List ℕ) (i : ℕ) (m : List (List ℕ × ℕ))
    → bytes_eq n name ≡ false
    → find_name name (assign_name n i m) ≡ find_name name m
unfolding find_name assign_name
find_name_other name n i [] h = rw h refl
find_name_other name n i ((x, j) ∷ m) h = elim (Bool-cases (bytes_eq x n)) [
  | inl same ↦
      let differs : bytes_eq x name ≡ false =
        ap (λ y. bytes_eq y name) ((bytes_eq_iff x n).0 same) ∙ h in
      rw (same, differs) refl
  | inr other ↦
      rw other (ap (λ o. if bytes_eq x name then some j else o) (find_name_other name n i m h))
]

name_tracks_absent :
    (name : List ℕ) (k : ℕ) (tcs : List TrackConfig) (m : List (List ℕ × ℕ))
    → IsAbsent name tcs
    → find_name name (name_tracks k tcs m) ≡ find_name name m
unfolding name_tracks
name_tracks_absent name k [] m h = refl
name_tracks_absent name k (tc ∷ tcs) m h =
    name_tracks_absent name (k + 1) tcs (assign_name tc.name k m) h.1
    ∙ find_name_other name tc.name k m h.0

name_tracks_at :
    (i k : ℕ) (tcs : List TrackConfig) (tc : TrackConfig) (m : List (List ℕ × ℕ))
    → nth i tcs ≡ some tc
    → IsAbsent tc.name (drop (suc i) tcs)
    → find_name tc.name (name_tracks k tcs m) ≡ some (k + i)
unfolding name_tracks nth
name_tracks_at i k [] tc m e h = ground arith
name_tracks_at zero k (u ∷ tcs) tc m e h =
    let same : u ≡ tc = some-injective _ _ e in
    name_tracks_absent tc.name (k + 1) tcs (assign_name u.name k m) h
    ∙ ap (λ (x : TrackConfig). find_name tc.name (assign_name x.name k m)) same
    ∙ find_name_assigned tc.name k m
    ∙ ap some (omega arith)
name_tracks_at (suc i) k (u ∷ tcs) tc m e h =
    name_tracks_at i (k + 1) tcs tc (assign_name u.name k m) e h ∙ ap some (omega arith)

module _ {A H : Type 0} (p : Platform A H) (config : SessionConfig) where
  config-new_track : (tc : TrackConfig) → (new_track p config tc).config ≡ tc
  unfolding new_track Configure.outbound_track Configure.inbound_track Configure.bare_track
  config-new_track tc = ground arith

  nth-new_track :
      (i : ℕ) (tcs : List TrackConfig) (tc : TrackConfig)
      → nth i tcs ≡ some tc
      → nth i (map (new_track p config) tcs) ≡ some (new_track p config tc)
  unfolding nth
  nth-new_track i [] tc e = ground arith
  nth-new_track zero (u ∷ tcs) tc e =
      ap (λ (x : TrackConfig). some (new_track p config x)) (some-injective _ _ e)
  nth-new_track (suc i) (u ∷ tcs) tc e = nth-new_track i tcs tc e

  -- After configure, whatever was configured before, get_track with the name of a configured track,
  -- the last one of that name, gives its index, and the handle there has that configuration; a
  -- name that no configured track has gives no handle.
  pub get_track-configure :
      (c : PanaudiaCore A H) (i : ℕ) (tc : TrackConfig)
      → nth i config.tracks ≡ some tc
      → IsAbsent tc.name (drop (suc i) config.tracks)
      → (other : List ℕ) → IsAbsent other config.tracks
      → let d = configure p config c in
        (get_track tc.name d ≡ some i)
        × (nth i d.session.moq.tracks ≡ some (new_track p config tc))
        × ((new_track p config tc).config ≡ tc)
        × (get_track other d ≡ none)
  unfolding configure get_track Configure.configure Configure.get_track find_name
  get_track-configure c i tc e h other a = (
    name_tracks_at i 0 config.tracks tc [] e h ∙ ap some (omega arith),
    nth-new_track i config.tracks tc e,
    config-new_track tc,
    name_tracks_absent other 0 config.tracks [] a,
  )
