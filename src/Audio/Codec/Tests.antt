-- ===== src/Audio/Codec/Tests.antt =====
-- A round trip of the PCM framing, on samples below 256, one to the byte.
use libpanaudia_core.Prelude.{List, [], arith, refl, ℕ, ◌∷◌, ◌≡◌}
use libpanaudia_core.Audio.Codec.{FloatBytes, pcm_frame, pcm_unframe}
use libpanaudia_core.Audio.Codec.Pcm.{IsMemory, pcm_unframe-pcm_frame}

abbrev float_of : List ℕ → ℕ
float_of [] = 0
float_of (b ∷ bs) = b

abbrev memory : FloatBytes ℕ
memory = record { bytes = λ a. a ∷ 0 ∷ 0 ∷ 0 ∷ []; float = float_of }

memory-IsMemory : IsMemory memory
memory-IsMemory = record { float_size = λ a. refl; float_back = λ a. refl }

pcm_example :
    pcm_unframe memory (pcm_frame memory (5 ∷ 6 ∷ 7 ∷ 8 ∷ []) 2 2) 2 ≡ (2, 5 ∷ 6 ∷ 7 ∷ 8 ∷ [])
pcm_example =
    pcm_unframe-pcm_frame memory memory-IsMemory (5 ∷ 6 ∷ 7 ∷ 8 ∷ []) 2 2 refl (omega arith)
      (omega arith) (omega arith)
