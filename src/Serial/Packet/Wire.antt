-- ===== src/Serial/Packet/Wire.antt =====
-- What goes out after each write to a packet.
use wi_vrn.Common.{
  ℕ, zero, suc, ◌+◌, ◌≡◌, refl, ap, sym, ◌∙◌, List, [], ◌∷◌, ◌++◌, arith, length, length-append,
  take, drop, concat, ltb, append-nil, append_assoc, take_all, take-append, drop-append,
  length-drop, true,
}
use wi_vrn.Serial.Packet.{
  Chunk, copied, pointed, Packet, clear, grow_back, write, write_span, gather, wire, copied_size,
  EndsCopied, IsValid,
}

concat-gather-copied :
    (s : ℕ) (cs : List Chunk) (it : List ℕ)
    → concat (gather (copied s ∷ cs) it) ≡ take s it ++ concat (gather cs (drop s it))
unfolding gather
concat-gather-copied zero cs it = refl
concat-gather-copied (suc s) cs it = let e = ltb-suc s in rw e
  where
    ltb-suc : (n : ℕ) → ltb 0 (suc n) ≡ true
    ltb-suc n = ground arith

concat-gather-pointed :
    (s : List ℕ) (cs : List Chunk) (it : List ℕ)
    → concat (gather (pointed s ∷ cs) it) ≡ s ++ concat (gather cs it)
unfolding gather
concat-gather-pointed s cs it = refl

concat-gather-nil : (it : List ℕ) → concat (gather [] it) ≡ []
unfolding gather
concat-gather-nil it = refl

copied_size-grow_back :
    (n : ℕ) (cs : List Chunk) → EndsCopied cs → copied_size (grow_back n cs) ≡ copied_size cs + n
unfolding grow_back
copied_size-grow_back n [] h = absurd h
copied_size-grow_back n (copied m ∷ []) h = omega arith
copied_size-grow_back n (pointed s ∷ []) h = absurd h
copied_size-grow_back n (copied m ∷ d ∷ cs) h = omega (arith, copied_size-grow_back n (d ∷ cs) h)
copied_size-grow_back n (pointed s ∷ d ∷ cs) h = copied_size-grow_back n (d ∷ cs) h

EndsCopied-cons : (c : Chunk) (cs : List Chunk) → EndsCopied cs → EndsCopied (c ∷ cs)
EndsCopied-cons c [] h = absurd h
EndsCopied-cons (copied n) (d ∷ cs) h = h
EndsCopied-cons (pointed s) (d ∷ cs) h = h

EndsCopied-tail : (c d : Chunk) (cs : List Chunk) → EndsCopied (c ∷ d ∷ cs) → EndsCopied (d ∷ cs)
EndsCopied-tail (copied n) d cs h = h
EndsCopied-tail (pointed s) d cs h = h

grow_back-EndsCopied : (n : ℕ) (cs : List Chunk) → EndsCopied cs → EndsCopied (grow_back n cs)
unfolding grow_back
grow_back-EndsCopied n [] h = h
grow_back-EndsCopied n (copied m ∷ []) h = tt
grow_back-EndsCopied n (pointed s ∷ []) h = h
grow_back-EndsCopied n (c ∷ d ∷ cs) h =
    EndsCopied-cons c (grow_back n (d ∷ cs))
      (grow_back-EndsCopied n (d ∷ cs) (EndsCopied-tail c d cs h))

append-EndsCopied : (cs : List Chunk) (s : List ℕ) → EndsCopied (cs ++ (pointed s ∷ copied 0 ∷ []))
append-EndsCopied [] s = tt
append-EndsCopied (c ∷ cs) s =
    EndsCopied-cons c (cs ++ (pointed s ∷ copied 0 ∷ [])) (append-EndsCopied cs s)

copied_size-append : (cs ds : List Chunk) → copied_size (cs ++ ds) ≡ copied_size cs + copied_size ds
copied_size-append [] ds = omega arith
copied_size-append (copied n ∷ cs) ds = omega (arith, copied_size-append cs ds)
copied_size-append (pointed s ∷ cs) ds = copied_size-append cs ds

-- Bytes written behind the buffer go out behind everything that goes out already.
gather-grow_back :
    (cs : List Chunk) (it bytes : List ℕ)
    → EndsCopied cs
    → copied_size cs ≡ length it
    → concat (gather (grow_back (length bytes) cs) (it ++ bytes)) ≡ concat (gather cs it) ++ bytes
unfolding grow_back
gather-grow_back [] it bytes h e = absurd h
gather-grow_back (copied m ∷ []) it bytes h e =
    concat-gather-copied (m + length bytes) [] (it ++ bytes)
    ∙ rw
        (
          concat-gather-nil,
          take_all (m + length bytes) (it ++ bytes) (omega (arith, length-append it bytes)),
        )
        (append-nil (it ++ bytes)
          ∙ ap (λ xs. xs ++ bytes)
              (sym (
                concat-gather-copied m [] it
                ∙ rw (concat-gather-nil, take_all m it (omega arith)) (append-nil it))))
gather-grow_back (pointed s ∷ []) it bytes h e = absurd h
gather-grow_back (copied m ∷ d ∷ cs) it bytes h e =
    concat-gather-copied m (grow_back (length bytes) (d ∷ cs)) (it ++ bytes)
    ∙ rw (take-append m it bytes (omega arith), drop-append m it bytes (omega arith))
        (ap (◌++◌ (take m it))
            (gather-grow_back (d ∷ cs) (drop m it) bytes h (omega (arith, length-drop m it)))
          ∙ sym (append_assoc (take m it) (concat (gather (d ∷ cs) (drop m it))) bytes)
          ∙ ap (λ xs. xs ++ bytes) (sym (concat-gather-copied m (d ∷ cs) it)))
gather-grow_back (pointed s ∷ d ∷ cs) it bytes h e =
    concat-gather-pointed s (grow_back (length bytes) (d ∷ cs)) (it ++ bytes)
    ∙ ap (◌++◌ s) (gather-grow_back (d ∷ cs) it bytes h e)
    ∙ sym (append_assoc s (concat (gather (d ∷ cs) it)) bytes)
    ∙ ap (λ xs. xs ++ bytes) (sym (concat-gather-pointed s (d ∷ cs) it))

-- A new span goes out behind everything that goes out already.
gather-append_span :
    (cs : List Chunk) (it s : List ℕ)
    → copied_size cs ≡ length it
    → concat (gather (cs ++ (pointed s ∷ copied 0 ∷ [])) it) ≡ concat (gather cs it) ++ s
gather-append_span [] it s e = unfold gather in append-nil s
gather-append_span (copied m ∷ cs) it s e =
    concat-gather-copied m (cs ++ (pointed s ∷ copied 0 ∷ [])) it
    ∙ ap (◌++◌ (take m it)) (gather-append_span cs (drop m it) s (omega (arith, length-drop m it)))
    ∙ sym (append_assoc (take m it) (concat (gather cs (drop m it))) s)
    ∙ ap (λ xs. xs ++ s) (sym (concat-gather-copied m cs it))
gather-append_span (pointed b ∷ cs) it s e =
    concat-gather-pointed b (cs ++ (pointed s ∷ copied 0 ∷ [])) it
    ∙ ap (◌++◌ b) (gather-append_span cs it s e)
    ∙ sym (append_assoc b (concat (gather cs it)) s)
    ∙ ap (λ xs. xs ++ s) (sym (concat-gather-pointed b cs it))

pub clear-IsValid : IsValid clear
unfolding clear
clear-IsValid = record { sized = refl; ends = tt }

pub wire-clear : wire clear ≡ []
unfolding clear wire
wire-clear = refl

module _ (p : Packet) (bytes : List ℕ) (v : IsValid p) where
  pub write-IsValid : IsValid (write bytes p)
  unfolding write
  write-IsValid = record {
    sized = omega (
      arith,
      v.sized,
      copied_size-grow_back (length bytes) p.spans v.ends,
      length-append p.buffer bytes,
    );
    ends = grow_back-EndsCopied (length bytes) p.spans v.ends;
  }

  pub wire-write : wire (write bytes p) ≡ wire p ++ bytes
  unfolding write wire
  wire-write = gather-grow_back p.spans p.buffer bytes v.ends v.sized

  pub write_span-IsValid : IsValid (write_span bytes p)
  unfolding write_span
  write_span-IsValid = record {
    sized = omega (arith, v.sized, copied_size-append p.spans (pointed bytes ∷ copied 0 ∷ []));
    ends = append-EndsCopied p.spans bytes;
  }

  pub wire-write_span : wire (write_span bytes p) ≡ wire p ++ bytes
  unfolding write_span wire
  wire-write_span = gather-append_span p.spans p.buffer bytes v.sized
