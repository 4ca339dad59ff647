-- ===== src/Transport/Memory/Owned.antt =====
-- A send, wherever it ends, keeps the blocks of the sends in flight.
use libpanaudia_core.Prelude.{
  Bool, List, [], arith, either, false, length, length-append, refl, subst, sym, true, ℕ, ◌*◌, ◌++◌,
  ◌+◌, ◌∷◌, ◌≡◌,
}
use libpanaudia_core.Transport.Memory.{
  SendContext, Sends, malloc, is_live, free, free_context, with_context, with_buffer, with_data,
  with_block,
}
use libpanaudia_core.Transport.Memory.Blocks.{
  count, blocks_of, Owns, malloc-Owns, free-Owns, Owns-reorder, count-append, Owns-fields,
}

unfoldable pub owned : Sends → List ℕ
owned s = blocks_of s.in_flight ++ s.datagrams

unfoldable pub IsOwned : Sends → Type 0
IsOwned s = Owns s (owned s)

-- Freeing leaves the record of what is in flight.
free-owned : (b : ℕ) (s : Sends) → owned (free b s) ≡ owned s
unfolding free owned
free-owned b s =
    either
      (λ (t : Sends). blocks_of t.in_flight ++ t.datagrams ≡ blocks_of s.in_flight ++ s.datagrams)
      (is_live b s.live) _ _ (λ _. refl) λ _. refl

pub freed-IsOwned : (b : ℕ) (s : Sends) → Owns s (b ∷ owned s) → IsOwned (free b s)
unfolding IsOwned
freed-IsOwned b s o = subst (Owns (free b s)) (sym (free-owned b s)) (free-Owns b s (owned s) o)

pub count-blocks_of :
    (k : ℕ) (cs ds : List SendContext)
    → count k (blocks_of (cs ++ ds)) ≡ count k (blocks_of cs) + count k (blocks_of ds)
unfolding blocks_of count
count-blocks_of k [] ds = omega arith
count-blocks_of k (c ∷ cs) ds = omega (arith, count-blocks_of k cs ds)

pub length-blocks_of : (cs : List SendContext) → length (blocks_of cs) ≡ 3 * length cs
unfolding blocks_of
length-blocks_of [] = omega arith
length-blocks_of (c ∷ cs) = omega (arith, length-blocks_of cs)

-- The two blocks of a send that ends at its third malloc.
freed_two : (a b : ℕ) (s : Sends) → Owns s (b ∷ a ∷ owned s) → IsOwned (free b (free a s))
unfolding count
freed_two a b s o =
    let swapped = Owns-reorder s (b ∷ a ∷ owned s) (a ∷ b ∷ owned s) (λ k. omega arith) refl o in
    freed-IsOwned b (free a s) (
      subst (λ l. Owns (free a s) (b ∷ l)) (sym (free-owned a s))
        (free-Owns a s (b ∷ owned s) swapped))

pub freed_context :
    (c : SendContext) (s : Sends)
    → Owns s (c.data_buf ∷ c.quic_buf ∷ c.ctx ∷ owned s)
    → IsOwned (free_context c s)
unfolding free_context count
freed_context c s o =
    let t = free c.data_buf s in
    let first = free-Owns c.data_buf s (c.quic_buf ∷ c.ctx ∷ owned s) o in
    freed_two c.quic_buf c.ctx t (
      subst (λ l. Owns t (c.ctx ∷ c.quic_buf ∷ l)) (sym (free-owned c.data_buf s))
        (Owns-reorder t _ (c.ctx ∷ c.quic_buf ∷ owned s) (λ k. omega arith) refl first))

pub sent-IsOwned :
    (first second third accepted : Bool) (s : Sends)
    → IsOwned s
    → IsOwned (with_data second third accepted (malloc first s)).1
unfolding with_data with_buffer with_context malloc IsOwned owned count blocks_of
sent-IsOwned false second third accepted s o = o
sent-IsOwned true false third accepted s o =
    freed-IsOwned s.fresh (malloc true s).1 (malloc-Owns s (owned s) o)
sent-IsOwned true true false accepted s o =
    freed_two s.fresh (s.fresh + 1) _ (malloc-Owns _ _ (malloc-Owns s (owned s) o))
sent-IsOwned true true true false s o = freed_context _ _ (
    Owns-reorder _ _ (s.fresh ∷ (s.fresh + 1) ∷ (s.fresh + 1 + 1) ∷ owned s) (λ k. omega arith) refl
      (malloc-Owns _ _ (malloc-Owns _ _ (malloc-Owns s (owned s) o))))
sent-IsOwned true true true true s o =
    let c : SendContext = record {
      data_buf = s.fresh;
      quic_buf = s.fresh + 1;
      ctx = s.fresh + 1 + 1;
    } in
    Owns-fields _ _ _ refl refl (
      Owns-reorder _ _ (blocks_of (s.in_flight ++ (c ∷ [])) ++ s.datagrams)
        (λ k. omega (
          arith,
          count-append k (blocks_of s.in_flight) s.datagrams,
          count-append k (blocks_of (s.in_flight ++ (c ∷ []))) s.datagrams,
          count-blocks_of k s.in_flight (c ∷ []),
        ))
        (omega (
          arith,
          length-append (blocks_of s.in_flight) s.datagrams,
          length-append (blocks_of (s.in_flight ++ (c ∷ []))) s.datagrams,
          length-blocks_of s.in_flight,
          length-blocks_of (s.in_flight ++ (c ∷ [])),
          length-append s.in_flight (c ∷ []),
        ))
        (malloc-Owns _ _ (malloc-Owns _ _ (malloc-Owns s (owned s) o))))

pub datagram-IsOwned :
    (first accepted : Bool) (s : Sends)
    → IsOwned s
    → IsOwned (with_block accepted (malloc first s)).1
unfolding with_block malloc IsOwned owned count
datagram-IsOwned false accepted s o = o
datagram-IsOwned true false s o =
    freed-IsOwned s.fresh (malloc true s).1 (malloc-Owns s (owned s) o)
datagram-IsOwned true true s o = Owns-fields _ _ _ refl refl (
    Owns-reorder _ _ (blocks_of s.in_flight ++ (s.datagrams ++ (s.fresh ∷ [])))
      (λ k. omega (
        arith,
        count-append k (blocks_of s.in_flight) s.datagrams,
        count-append k (blocks_of s.in_flight) (s.datagrams ++ (s.fresh ∷ [])),
        count-append k s.datagrams (s.fresh ∷ []),
      ))
      (omega (
        arith,
        length-append (blocks_of s.in_flight) s.datagrams,
        length-append (blocks_of s.in_flight) (s.datagrams ++ (s.fresh ∷ [])),
        length-append s.datagrams (s.fresh ∷ []),
      ))
      (malloc-Owns s (owned s) o))
