-- ===== src/Audio/Jitter/States.antt =====
-- The states of the inbound buffer: what a read returns and where it leaves the buffer.
use libpanaudia_core.Prelude.{
  ==_ne, Bool, Bool-cases, List, ap, arith, false, inl, inr, none, refl, replicate, slt, some,
  subst, sym, true, ℕ, ◌∙◌, ◌≡◌, ◌≢◌, ◌⊎◌,
}
use libpanaudia_core.Audio.Jitter.{
  JitterBufferState, filling, playing, JitterBuffer, Correction, insert, keep, drop_one,
  overflow_snap, fill_samples, start_playing, overrun_snap, count_read, correction, consume,
  produce, play, read_started, read, start_from,
}

module _ {A : Type 0} (silence : A) (dst : ℕ → A) where
  state-produce :
      (j : JitterBuffer A) (c : Correction) (n : ℕ) → (produce silence dst j c n).1.state ≡ j.state
  unfolding produce consume
  state-produce j insert n = refl
  state-produce j keep n = refl
  state-produce j drop_one n = refl

  state-overrun_snap : (j : JitterBuffer A) → (overrun_snap j).state ≡ j.state
  unfolding overrun_snap
  state-overrun_snap j = ground arith

  -- What a read from the playing state ends in.
  pub data Outcome (n : ℕ) : Bool → List A → JitterBufferState → Type 0 where
    silent : Outcome n false (replicate n silence) filling
    audible : (out : List A) → Outcome n true out playing

  play-Outcome :
      (j : JitterBuffer A) (n : ℕ)
      → j.state ≡ playing
      → let r = play silence dst j n in Outcome n r.0 r.1 r.2.state
  unfolding play
  play-Outcome j n s = elim (Bool-cases (slt (fill_samples j) j.min_samples)) [
    | inl low ↦ rw low silent
    | inr fine ↦ rw fine (
        subst (λ t. Outcome n true (produce silence dst (count_read j) (correction j) n).0 t)
          (sym (state-produce (count_read j) (correction j) n ∙ s)) (audible _))
  ]

  -- Filling goes on below the low mark; otherwise the buffer plays.
  pub start_cases :
      (j : JitterBuffer A)
      → ((start_playing j ≡ none)
          × (j.state ≡ filling)
          × (slt (fill_samples j) j.target_low ≡ true))
        ⊎ ((j' : JitterBuffer A) × (start_playing j ≡ some j') × (j'.state ≡ playing))
  unfolding start_from
  start_cases j = by_state j.state refl
    where
      from : {s : JitterBufferState} → j.state ≡ s → start_playing j ≡ start_from s j
      from e = unfold start_playing in ap (λ t. start_from t j) e

      by_state :
          (s : JitterBufferState)
          → j.state ≡ s
          → ((start_playing j ≡ none)
              × (j.state ≡ filling)
              × (slt (fill_samples j) j.target_low ≡ true))
            ⊎ ((j' : JitterBuffer A) × (start_playing j ≡ some j') × (j'.state ≡ playing))
      by_state filling e = elim (Bool-cases (slt (fill_samples j) j.target_low)) [
        | inl low ↦ inl (from e ∙ (unfold start_from in rw low), e, low)
        | inr high ↦ inr (
          record j { state = playing; correction_counter = 0 },
          from e ∙ (unfold start_from in rw high),
          refl,
        )
      ]
      by_state playing e = inr (j, from e, e)

  -- A read of any samples either returns false, fills the caller's buffer with silence and leaves
  -- the buffer filling, or returns true and leaves it playing; nothing else happens.
  pub read-Outcome :
      (j : JitterBuffer A) (n : ℕ)
      → n ≢ 0
      → let r = read silence dst j n in Outcome n r.0 r.1 r.2.state
  unfolding read
  read-Outcome j n h = rw (==_ne n 0 h) (started (overflow_snap j))
    where
      started :
          (j : JitterBuffer A)
          → let r = read_started silence dst j (start_playing j) n in Outcome n r.0 r.1 r.2.state
      started j =
          unfold read_started in
          elim (start_cases j) [
            | inl (e, s, low) ↦
                rw e (subst (λ t. Outcome n false (replicate n silence) t) (sym s) silent)
            | inr (j', e, s) ↦ rw e (play-Outcome (overrun_snap j') n (state-overrun_snap j' ∙ s))
          ]
