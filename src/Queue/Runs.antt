-- ===== src/Queue/Runs.antt =====
-- Concrete runs of the queue.
use wi_vrn.Common.{ℕ, ◌≡◌, refl, [], ◌∷◌, false}
use wi_vrn.Queue.{SyncQueue, push_all, push}

abbrev empty : SyncQueue ℕ
empty = record { queue = []; closed = false }

abbrev filled : SyncQueue ℕ
filled = record { queue = 4 ∷ 5 ∷ 6 ∷ []; closed = false }

push_all_run : push_all (4 ∷ 5 ∷ 6 ∷ []) empty ≡ filled
unfolding push_all push
push_all_run = refl
