-- ===== src/Shm/Ring/Bounds.antt =====
-- The invariant of `FixedConstructLenSPSC`: every index that it uses lies in the storage.
use medici.Prelude.{ℕ, ◌+◌, ◌^◌, ◌<◌, ◌≡◌, refl, arith}
use medici.Shm.Ring.{
  Ring, Handler, construct, enqueue, consume, next_index, get_queue_size, next_offset,
}

pub record IsValid {A : Type 0} (r : Ring A) : Type 0 where
  pub head_in : r.head < r.queue_size
  pub tail_in : r.tail < r.queue_size
  pub small : r.queue_size < 2 ^ 32

pub construct-IsValid :
    {A : Type 0} (n i : ℕ) (mem : ℕ → A) → n + 1 < 2 ^ 32 → IsValid (construct n i mem)
unfolding construct
construct-IsValid n i mem h = omega arith

pub next_index-lt : {A : Type 0} {r : Ring A} (i : ℕ) → IsValid r → next_index r i < r.queue_size
next_index-lt i v = omega arith

pub enqueue-IsValid : {A : Type 0} (r : Ring A) (x : A) → IsValid r → IsValid (enqueue r x).0
unfolding enqueue
enqueue-IsValid r x v = ground arith

pub consume-IsValid :
    {A E S : Type 0} (r : Ring A) (f : Handler E S A) (s : S)
    → IsValid r
    → IsValid (consume r f s).0
unfolding consume
consume-IsValid r f s v = ground arith

-- The rings of one segment do not overlap: the next one begins where the storage of this one ends.
pub next_offset-construct :
    {A : Type 0} (header_size entry_size n i : ℕ) (mem : ℕ → A)
    → next_offset header_size entry_size (construct n i mem)
      ≡ get_queue_size header_size entry_size n
unfolding construct next_offset get_queue_size
next_offset-construct header_size entry_size n i mem = refl
