-- ===== src/Serial/Packet.antt =====
-- `serialization_packet` of common/wivrn_serialization.h: bytes that are copied into a buffer, and
-- spans that are only pointed to, in the order in which they go out.
pub mod Wire
use wi_vrn.Common.{
  ℕ, zero, suc, ◌+◌, ◌≡◌, refl, ap, sym, ◌∙◌, List, [], ◌∷◌, ◌++◌, arith, length, length-append,
  take, drop, concat, ltb, if◌then◌else◌, append-nil, append_assoc, take_prefix, drop_prefix,
  take-append-drop,
}

-- Either a size to read from the buffer, or a span.
pub data Chunk : Type 0 where
  copied : ℕ → Chunk
  pointed : List ℕ → Chunk

pub record Packet : Type 0 where
  pub buffer : List ℕ
  pub spans : List Chunk

unfoldable pub clear : Packet
clear = record { buffer = []; spans = copied 0 ∷ [] }

-- `std::get<size_t>(spans.back()) += size`. The last chunk is a size in every packet that the
-- program builds (`EndsCopied`), so the other two clauses are not reached.
pub grow_back : ℕ → List Chunk → List Chunk
grow_back size [] = []
grow_back size (copied n ∷ []) = copied (n + size) ∷ []
grow_back size (pointed s ∷ []) = pointed s ∷ []
grow_back size (c ∷ d ∷ cs) = c ∷ grow_back size (d ∷ cs)

unfoldable pub write : List ℕ → Packet → Packet
unfolding grow_back
write bytes p = record { buffer = p.buffer ++ bytes; spans = grow_back (length bytes) p.spans }

unfoldable pub write_span : List ℕ → Packet → Packet
write_span s p = record p { spans = p.spans ++ (pointed s ∷ copied 0 ∷ []) }

-- The visitor of `operator std::vector<std::span<uint8_t>>`; the second list is what the
-- iterator has not passed.
unfoldable pub gather : List Chunk → List ℕ → List (List ℕ)
gather [] it = []
gather (copied s ∷ cs) it =
    let rest = gather cs (drop s it) in if ltb 0 s then take s it ∷ rest else rest
gather (pointed s ∷ cs) it = s ∷ gather cs it

unfoldable pub to_spans : Packet → List (List ℕ)
unfolding gather
to_spans p = gather p.spans p.buffer

-- The bytes in the order in which they go out.
unfoldable pub wire : Packet → List ℕ
unfolding to_spans
wire p = concat (to_spans p)

abbrev pub copied_size : List Chunk → ℕ
copied_size [] = 0
copied_size (copied n ∷ cs) = n + copied_size cs
copied_size (pointed s ∷ cs) = copied_size cs

abbrev pub EndsCopied : List Chunk → Type 0
EndsCopied [] = ⊥
EndsCopied (copied n ∷ []) = Unit
EndsCopied (pointed s ∷ []) = ⊥
EndsCopied (c ∷ d ∷ cs) = EndsCopied (d ∷ cs)

-- The sizes account for the whole buffer, and the last chunk is a size.
pub record IsValid (p : Packet) : Type 0 where
  pub sized : copied_size p.spans ≡ length p.buffer
  pub ends : EndsCopied p.spans
