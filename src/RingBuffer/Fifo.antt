-- ===== src/RingBuffer/Fifo.antt =====
-- The two threads of the ring of common/utils/ring_buffer.h, in every interleaving.
use wi_vrn.Common.{
  update-same, ℕ, ◌+◌, ◌<◌, ◌≤◌, ◌^◌, ◌≡◌, ◌≢◌, ◌↔◌, ◌⊎◌, refl, sym, ap, ◌∙◌, List, [], ◌∷◌, ◌++◌,
  arith, length, length-append, append_assoc,
}
use mathlib.Core.Path.{subst}
use wi_vrn.RingBuffer.{next, Writer, Reader, Ring, Step, Reach, new_ring, size}
use wi_vrn.RingBuffer.Size.{distance, full, empty}
use wi_vrn.RingBuffer.Window.{
  Window, next_below, position, apart, has_room, Window-snoc, Window-update,
}

module _ {A : Type 0} (capacity : ℕ) where
  abbrev WriterOk : (ℕ → A) → ℕ → List A → Writer A → Type 0
  WriterOk c w q Writer.idle = Unit
  WriterOk c w q (Writer.filling i t) = (i ≡ next capacity w) × (length q + 1 < capacity)
  WriterOk c w q (Writer.publishing i t) =
      (i ≡ next capacity w) × (length q + 1 < capacity) × (c i ≡ t)

  abbrev ReaderOk : ℕ → List A → Reader A → Type 0
  ReaderOk r q Reader.idle = Unit
  ReaderOk r q (Reader.taking i) =
      (i ≡ next capacity r) × ((x : A) × (rest : List A) × (q ≡ x ∷ rest))
  ReaderOk r q (Reader.releasing i t) = (i ≡ next capacity r) × ((rest : List A) × (q ≡ t ∷ rest))

  record Inv (s : Ring A) : Type 0 where
    unread : List A
    in_order : s.written ≡ s.taken ++ unread
    window : Window capacity s.container s.read_index unread s.write_index
    bounded : length unread < capacity
    read_below : s.read_index < capacity
    write_below : s.write_index < capacity
    writer_ok : WriterOk s.container s.write_index unread s.writer
    reader_ok : ReaderOk s.read_index unread s.reader

  -- Items behind the window do not matter to a reader that has one.
  ReaderOk-snoc :
      (r : ℕ) (q : List A) (t : A) (p : Reader A) → ReaderOk r q p → ReaderOk r (q ++ (t ∷ [])) p
  ReaderOk-snoc r q t Reader.idle ok = ok
  ReaderOk-snoc r q t (Reader.taking i) (e, (x, rest, h)) =
      (e, (x, rest ++ (t ∷ []), ap (λ l. l ++ (t ∷ [])) h))
  ReaderOk-snoc r q t (Reader.releasing i x) (e, (rest, h)) =
      (e, (rest ++ (t ∷ []), ap (λ l. l ++ (t ∷ [])) h))

  WriterOk-tail :
      (c : ℕ → A) (w : ℕ) (x : A) (q : List A) (p : Writer A)
      → WriterOk c w (x ∷ q) p
      → WriterOk c w q p
  WriterOk-tail c w x q Writer.idle ok = ok
  WriterOk-tail c w x q (Writer.filling i t) (e, h) = (e, omega arith)
  WriterOk-tail c w x q (Writer.publishing i t) (e, h, g) = (e, omega arith, g)

  -- A reader that finds the indices apart has an item.
  unread_head :
      (c : ℕ → A) (r w : ℕ) (q : List A)
      → Window capacity c r q w
      → r ≢ w
      → (x : A) × (rest : List A) × (q ≡ x ∷ rest)
  unread_head c r w [] win ne = absurd (ne win)
  unread_head c r w (x ∷ q) win ne = (x, q, refl)

  -- The reader's next slot has the first unread item.
  first_unread :
      (c : ℕ → A) (r w : ℕ) (q : List A) (x : A) (rest : List A)
      → Window capacity c r q w
      → q ≡ x ∷ rest
      → (c (next capacity r) ≡ x) × Window capacity c (next capacity r) rest w
  first_unread c r w q x rest win e = subst (λ l. Window capacity c r l w) e win

  writer_at :
      {s : Ring A} {p : Writer A}
      → (v : Inv s) → s.writer ≡ p
      → WriterOk s.container s.write_index v.unread p
  writer_at {s} {p} v h = rw (sym h) v.writer_ok

  reader_at :
      {s : Ring A} {p : Reader A} → (v : Inv s) → s.reader ≡ p → ReaderOk s.read_index v.unread p
  reader_at {s} {p} v h = rw (sym h) v.reader_ok

  first :
      {s : Ring A} (v : Inv s) (x : A) (rest : List A)
      → v.unread ≡ x ∷ rest
      → (s.container (next capacity s.read_index) ≡ x)
        × Window capacity s.container (next capacity s.read_index) rest s.write_index
  first {s} v x rest e =
      first_unread s.container s.read_index s.write_index v.unread x rest v.window e

  step-Inv : {s t : Ring A} → Inv s → Step capacity s t → Inv t
  step-Inv {s} v (Step.refuse _ _) = v
  step-Inv {s} v (Step.begin_write t h ne) = record {
    unread = v.unread;
    in_order = v.in_order;
    window = v.window;
    bounded = v.bounded;
    read_below = v.read_below;
    write_below = v.write_below;
    writer_ok = (
      refl,
      has_room capacity s.container s.read_index s.write_index v.unread v.read_below v.bounded
          v.window v.write_below ne,
    );
    reader_ok = v.reader_ok;
  }
  step-Inv {s} v (Step.fill i t h) =
      let (e, room) = writer_at v h in
      record {
        unread = v.unread;
        in_order = v.in_order;
        window = rw e (
            Window-update capacity s.container s.read_index s.write_index v.unread t v.read_below
              v.write_below v.bounded v.window);
        bounded = v.bounded;
        read_below = v.read_below;
        write_below = v.write_below;
        writer_ok = (e, room, update-same s.container i t);
        reader_ok = v.reader_ok;
      }
  step-Inv {s} v (Step.publish i t h) =
      let (e, room, c) = writer_at v h in
      record {
        unread = v.unread ++ (t ∷ []);
        in_order = ap (λ l. l ++ (t ∷ [])) v.in_order ∙ append_assoc s.taken v.unread (t ∷ []);
        window = rw e (
            Window-snoc capacity s.container s.read_index s.write_index v.unread t v.window
              (rw (sym e) c));
        bounded = omega (arith, length-append v.unread (t ∷ []));
        read_below = v.read_below;
        write_below = rw e (next_below capacity s.write_index v.write_below);
        writer_ok = tt;
        reader_ok = ReaderOk-snoc s.read_index v.unread t s.reader v.reader_ok;
      }
  step-Inv {s} v (Step.miss _ _) = v
  step-Inv {s} v (Step.begin_read h ne) = record {
    unread = v.unread;
    in_order = v.in_order;
    window = v.window;
    bounded = v.bounded;
    read_below = v.read_below;
    write_below = v.write_below;
    writer_ok = v.writer_ok;
    reader_ok = (refl, unread_head s.container s.read_index s.write_index v.unread v.window ne);
  }
  step-Inv {s} v (Step.take i h) =
      let (e, (x, rest, q)) = reader_at v h in
      record {
        unread = v.unread;
        in_order = v.in_order;
        window = v.window;
        bounded = v.bounded;
        read_below = v.read_below;
        write_below = v.write_below;
        writer_ok = v.writer_ok;
        reader_ok = (e, (rest, q ∙ ap (◌∷ rest) (sym (ap s.container e ∙ (first v x rest q).0))));
      }
  step-Inv {s} v (Step.release i t h) =
      let (e, (rest, q)) = reader_at v h in
      record {
        unread = rest;
        in_order = v.in_order ∙ ap (s.taken ++◌) q ∙ sym (append_assoc s.taken (t ∷ []) rest);
        window = rw e (first v t rest q).1;
        bounded = omega (arith, v.bounded, ap length q);
        read_below = rw e (next_below capacity s.read_index v.read_below);
        write_below = v.write_below;
        writer_ok =
            WriterOk-tail s.container s.write_index t rest s.writer
              (subst (λ l. WriterOk s.container s.write_index l s.writer) q v.writer_ok);
        reader_ok = tt;
      }

  new-Inv : (container : ℕ → A) → 0 < capacity → Inv (new_ring container)
  new-Inv container h = record {
    unread = [];
    in_order = refl;
    window = λ _. 0;
    bounded = h;
    read_below = h;
    write_below = h;
    writer_ok = tt;
    reader_ok = tt;
  }

  reach-Inv : {container : ℕ → A} {s : Ring A} → 0 < capacity → Reach capacity container s → Inv s
  reach-Inv {container} h Reach.start = new-Inv container h
  reach-Inv h (Reach.later before step) = step-Inv (reach-Inv h before) step

  where_unread :
      {s : Ring A} (v : Inv s)
      → (s.write_index ≡ s.read_index + length v.unread)
        ⊎ (s.write_index + capacity ≡ s.read_index + length v.unread)
  where_unread {s} v =
      position capacity s.container s.read_index s.write_index v.unread v.read_below v.bounded
        v.window

  -- In every interleaving of one writing and one reading thread on a ring of one to 2^63 slots, the
  -- items that `read` returned, followed by some unread items, fewer than the capacity, are the
  -- items that `write` accepted, in their order, and `size` is the number of the unread ones. The
  -- test by which `write` refuses an item holds exactly if all slots but one are unread, and the one
  -- by which `read` returns nothing exactly if no item is unread.
  pub reach_in_order :
      (container : ℕ → A) (s : Ring A)
      → 0 < capacity
      → capacity ≤ 2 ^ 63
      → Reach capacity container s
      → (unread : List A) × (s.written ≡ s.taken ++ unread)
        × (length unread < capacity)
        × (size capacity s ≡ length unread)
        × ((next capacity s.write_index ≡ s.read_index) ↔ (length unread + 1 ≡ capacity))
        × ((s.read_index ≡ s.write_index) ↔ (length unread ≡ 0))
  unfolding size
  reach_in_order container s h bound r =
      let v = reach-Inv h r in
      let n = where_unread v in
      (
        v.unread,
        v.in_order,
        v.bounded,
        distance capacity s.read_index s.write_index (length v.unread) v.read_below v.write_below
            v.bounded bound n,
        full capacity s.read_index s.write_index (length v.unread) v.read_below v.write_below
            v.bounded n,
        empty capacity s.read_index s.write_index (length v.unread) v.read_below v.write_below
            v.bounded n,
      )

  -- In every interleaving, a writer that moves an item into a slot and a reader that moves one out
  -- are at different slots.
  pub reach_apart :
      (container : ℕ → A) (s : Ring A) (i j : ℕ) (t : A)
      → 0 < capacity
      → Reach capacity container s
      → s.writer ≡ Writer.filling i t
      → s.reader ≡ Reader.taking j
      → i ≢ j
  reach_apart container s i j t h r writing reading same =
      let v = reach-Inv h r in
      let (e, room) = writer_at v writing in
      let (f, (x, rest, q)) = reader_at v reading in
      apart capacity s.container s.read_index s.write_index x rest v.read_below v.write_below
        (omega (arith, v.bounded, ap length q))
        (subst (λ l. Window capacity s.container s.read_index l s.write_index) q v.window)
        (sym e ∙ same ∙ f)
