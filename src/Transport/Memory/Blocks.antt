-- ===== src/Transport/Memory/Blocks.antt =====
-- The blocks that are allocated are those of the sends in flight, each as often.
use libpanaudia_core.Prelude.{
  List, [], ap, arith, either, false, if◌then◌else◌, length, refl, true, ℕ, ◌++◌, ◌+◌, ◌==◌, ◌∙◌,
  ◌∷◌, ◌≡◌, ◌≤◌,
}
use libpanaudia_core.Transport.Memory.{
  SendContext, Sends, malloc, is_live, remove, free, free_context,
}

unfoldable pub count : ℕ → List ℕ → ℕ
count k [] = 0
count k (b ∷ bs) = (if k == b then 1 else 0) + count k bs

pub count-append : (k : ℕ) (xs ys : List ℕ) → count k (xs ++ ys) ≡ count k xs + count k ys
unfolding count
count-append k [] ys = omega arith
count-append k (x ∷ xs) ys = omega (arith, count-append k xs ys)

is_live-count : (b : ℕ) (l : List ℕ) → 1 ≤ count b l → is_live b l ≡ true
unfolding is_live count
is_live-count b [] h = ground arith
is_live-count b (c ∷ cs) h = let ih = is_live-count b cs in ground arith

count-remove :
    (k b : ℕ) (l : List ℕ)
    → 1 ≤ count b l
    → count k (remove b l) + (if k == b then 1 else 0) ≡ count k l
unfolding remove count
count-remove k b [] h = omega arith
count-remove k b (c ∷ cs) h = let ih = count-remove k b cs in ground arith

length-remove : (b : ℕ) (l : List ℕ) → 1 ≤ count b l → length (remove b l) + 1 ≡ length l
unfolding remove count
length-remove b [] h = omega arith
length-remove b (c ∷ cs) h = let ih = length-remove b cs in ground arith

unfoldable pub blocks_of : List SendContext → List ℕ
blocks_of [] = []
blocks_of (c ∷ cs) = c.data_buf ∷ c.quic_buf ∷ c.ctx ∷ blocks_of cs

-- The live blocks are those of a list, and nothing was freed that was not live.
pub record Owns (s : Sends) (bs : List ℕ) : Type 0 where
  pub each : (k : ℕ) → count k s.live ≡ count k bs
  pub all : length s.live ≡ length bs
  pub sound : s.corrupted ≡ false

pub malloc-Owns : (s : Sends) (bs : List ℕ) → Owns s bs → Owns (malloc true s).1 (s.fresh ∷ bs)
unfolding malloc count
malloc-Owns s bs o = record {
  each = λ k. omega (arith, o.each k);
  all = omega (arith, o.all);
  sound = o.sound;
}

pub free-Owns : (b : ℕ) (s : Sends) (bs : List ℕ) → Owns s (b ∷ bs) → Owns (free b s) bs
unfolding free count
free-Owns b s bs o =
    let here : 1 ≤ count b s.live = ground (arith, o.each b) in
    let live = is_live-count b s.live here in
    rw live (record {
      each = λ k. omega (arith, count-remove k b s.live here, o.each k);
      all = omega (arith, length-remove b s.live here, o.all);
      sound = o.sound;
    })

-- The order of the list does not matter.
pub Owns-reorder :
    (s : Sends) (bs cs : List ℕ)
    → ((k : ℕ) → count k bs ≡ count k cs)
    → length bs ≡ length cs
    → Owns s bs
    → Owns s cs
Owns-reorder s bs cs f e o = record { each = λ k. o.each k ∙ f k; all = o.all ∙ e; sound = o.sound }

-- What is in flight does not matter either.
pub Owns-fields :
    (s t : Sends) (bs : List ℕ)
    → t.live ≡ s.live
    → t.corrupted ≡ s.corrupted
    → Owns s bs
    → Owns t bs
Owns-fields s t bs e f o = record {
  each = λ k. ap (count k) e ∙ o.each k;
  all = ap length e ∙ o.all;
  sound = f ∙ o.sound;
}

pub free_context-Owns :
    (c : SendContext) (s : Sends) (bs : List ℕ)
    → Owns s (c.data_buf ∷ c.quic_buf ∷ c.ctx ∷ bs)
    → Owns (free_context c s) bs
unfolding free_context
free_context-Owns c s bs o =
    free-Owns c.ctx _ bs (free-Owns c.quic_buf _ (c.ctx ∷ bs) (free-Owns c.data_buf s _ o))

-- Freeing leaves what is in flight.
pub in_flight-free : (b : ℕ) (s : Sends) → (free b s).in_flight ≡ s.in_flight
unfolding free
in_flight-free b s =
    either (λ (t : Sends). t.in_flight ≡ s.in_flight) (is_live b s.live) _ _ (λ _. refl) λ _. refl

pub datagrams-free : (b : ℕ) (s : Sends) → (free b s).datagrams ≡ s.datagrams
unfolding free
datagrams-free b s =
    either (λ (t : Sends). t.datagrams ≡ s.datagrams) (is_live b s.live) _ _ (λ _. refl) λ _. refl

pub datagrams-free_context :
    (c : SendContext) (s : Sends) → (free_context c s).datagrams ≡ s.datagrams
unfolding free_context
datagrams-free_context c s =
    datagrams-free c.ctx _ ∙ datagrams-free c.quic_buf _ ∙ datagrams-free c.data_buf s
