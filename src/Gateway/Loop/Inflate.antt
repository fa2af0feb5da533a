-- ===== src/Gateway/Loop/Inflate.antt =====
-- A compressed payload that comes in several messages.
use vaidcord.Base.{ℕ, ◌≡◌, refl, ◌∙◌, true, false, some, List, [], ◌∷◌, ◌++◌, arith}
use mathlib.Core.List.{append_assoc, append-nil}
use vaidcord.Base.Result.{ok}
use vaidcord.Gateway.{Config, Gateway, Services}
use vaidcord.Gateway.Loop.{Payload, is_flushed, inflate}

abbrev pub concat : List (List ℕ) → List ℕ
concat [] = []
concat (c ∷ cs) = c ++ concat cs

-- No chunk completes the buffer.
unfoldable pub IsWaiting : List ℕ → List (List ℕ) → Type 0
IsWaiting buffer [] = Unit
IsWaiting buffer (c ∷ cs) = (is_flushed (buffer ++ c) ≡ false) × IsWaiting (buffer ++ c) cs

module _ {P Z D : Type 0} (config : Config P) (services : Services P Z (Payload D) D) where
  -- The state after the chunks.
  unfoldable pub feed : List (List ℕ) → Gateway P Z → Gateway P Z
  feed [] g = g
  feed (c ∷ cs) g = feed cs (inflate config services c g).1

  feed_lem :
      (cs : List (List ℕ)) (g : Gateway P Z) (z : Z)
      → g.inflator ≡ some z
      → IsWaiting g.compressed_buffer cs
      → feed cs g ≡ record g { compressed_buffer = g.compressed_buffer ++ concat cs }
  unfolding feed IsWaiting inflate
  feed_lem [] g z h w = rw (append-nil g.compressed_buffer) refl
  feed_lem (c ∷ cs) g z h (w, ws) =
      let g' : Gateway P Z = record g { compressed_buffer = g.compressed_buffer ++ c } in
      let step : (inflate config services c g).1 ≡ g' = ground arith in
      rw step (feed_lem cs g' z h ws ∙ rw (append_assoc g.compressed_buffer c (concat cs)) refl)

  -- Of a payload in several messages, none but the last of which completes the buffer, the decompressor
  -- is given all the bytes at once, in their order, at the last message; its payload is the result, and
  -- the buffer is empty again.
  pub inflate-feed :
      (cs : List (List ℕ)) (c : List ℕ) (g : Gateway P Z) (z z' : Z) (payload : Payload D)
      → g.inflator ≡ some z
      → IsWaiting g.compressed_buffer cs
      → is_flushed ((g.compressed_buffer ++ concat cs) ++ c) ≡ true
      → services.decompress z ((g.compressed_buffer ++ concat cs) ++ c) ≡ some (z', ok payload)
      → inflate config services c (feed cs g)
        ≡ (ok (some payload), record g { inflator = some z'; compressed_buffer = [] })
  unfolding inflate
  inflate-feed cs c g z z' payload h w f d = rw (feed_lem cs g z h w) (ground arith)
