-- ===== src/RingBuffer.antt =====
-- `utils::ring_buffer` of common/utils/ring_buffer.h, shared by one writing and one reading thread.
-- The steps are the accesses to what the threads share; a thread's loads of its own index, which
-- no other thread stores, are one step with the load of the other index. The atomics are
-- sequentially consistent, and the array is a function of the index.
mod Window
mod Fifo
mod Size
mod Runs
use wi_vrn.Common.{
  update, ℕ, ◌+◌, ◌-◌, ◌%◌, ◌^◌, min, ◌≡◌, ◌≢◌, List, [], ◌∷◌, ◌++◌, ◌==◌, if◌then◌else◌,
}

module _ (A : Type 0) where
  -- Where the writer stands: outside `write`; before it moves into `container[next_write]`; before
  -- it stores `write_index`.
  pub data Writer : Type 0 where
    idle : Writer
    filling : (next_write : ℕ) → A → Writer
    publishing : (next_write : ℕ) → A → Writer

  -- Where the reader stands: outside `read`; before it moves out of `container[next_read]`; before
  -- it stores `read_index`.
  pub data Reader : Type 0 where
    idle : Reader
    taking : (next_read : ℕ) → Reader
    releasing : (next_read : ℕ) → A → Reader

  -- `written` are the items that `write` returned true for, `taken` those that `read` returned,
  -- the first one first.
  pub record Ring : Type 0 where
    pub container : ℕ → A
    pub read_index : ℕ
    pub write_index : ℕ
    pub writer : Writer
    pub reader : Reader
    pub written : List A
    pub taken : List A

-- The index behind `i`.
abbrev pub next : ℕ → ℕ → ℕ
next capacity i = (i + 1) % capacity

module _ {A : Type 0} where
  -- The constructor.
  abbrev pub new_ring : (ℕ → A) → Ring A
  new_ring container = record {
    container = container;
    read_index = 0;
    write_index = 0;
    writer = Writer.idle;
    reader = Reader.idle;
    written = [];
    taken = [];
  }

module _ {A : Type 0} (capacity : ℕ) where
  -- `size`, with both indices loaded at once.
  unfoldable pub size : Ring A → ℕ
  size s =
      min ((s.write_index + 2 ^ 64 - s.read_index) % 2 ^ 64)
        ((capacity + s.write_index + 2 ^ 64 - s.read_index) % 2 ^ 64)

  pub data Step (s : Ring A) : Ring A → Type 0 where
    -- `write` loads the indices, and returns false if the buffer is full.
    refuse : s.writer ≡ Writer.idle → next capacity s.write_index ≡ s.read_index → Step s s
    begin_write :
        (t : A)
        → s.writer ≡ Writer.idle
        → next capacity s.write_index ≢ s.read_index
        → Step s (record s { writer = Writer.filling (next capacity s.write_index) t })
    fill :
        (i : ℕ) (t : A)
        → s.writer ≡ Writer.filling i t
        → Step s (record s { container = update s.container i t; writer = Writer.publishing i t })
    publish :
        (i : ℕ) (t : A)
        → s.writer ≡ Writer.publishing i t
        → Step s
            (record s { write_index = i; writer = Writer.idle; written = s.written ++ (t ∷ []) })
    -- `read` loads the indices, and returns nothing if the buffer is empty.
    miss : s.reader ≡ Reader.idle → s.read_index ≡ s.write_index → Step s s
    begin_read :
        s.reader ≡ Reader.idle
        → s.read_index ≢ s.write_index
        → Step s (record s { reader = Reader.taking (next capacity s.read_index) })
    take :
        (i : ℕ)
        → s.reader ≡ Reader.taking i
        → Step s (record s { reader = Reader.releasing i (s.container i) })
    release :
        (i : ℕ) (t : A)
        → s.reader ≡ Reader.releasing i t
        → Step s (record s { read_index = i; reader = Reader.idle; taken = s.taken ++ (t ∷ []) })

  pub data Reach (container : ℕ → A) : Ring A → Type 0 where
    start : Reach container (new_ring container)
    later : {s t : Ring A} → Reach container s → Step s t → Reach container t
