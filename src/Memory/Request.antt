-- ===== src/Memory/Request.antt =====
-- Requests and their buffers (simulator/src/base/request.h), and what a controller uses of a device
-- (simulator/src/dram/dram.h).
use kvc_pim.Base.{
  ℕ, Bool-cases, get_elem?, if◌then◌else◌, leb, length, length-append, minus_one, ℤ, zero, suc, ◌+◌,
  ◌≤◌, ◌≡◌, inl, inr, Bool, Option, none, some, List, [], ◌∷◌, ◌++◌, arith, leb→le, refl, sym,
  subst, ◌∙◌, true, false, none≢some, some_inj, ap,
}

-- The callback of a request is left out: the trace front ends send requests without one.
pub record Request : Type 0 where
  pub addr : ℤ
  pub addr_vec : List ℤ
  pub type_id : ℕ
  pub command : ℤ
  pub final_command : ℤ
  pub arrive : ℤ
  pub depart : ℤ

-- The constructor from an address vector: `addr` keeps its initial value, as the rest does. The
-- request type stands for the operation's name.
unfoldable pub new_request : List ℤ → ℕ → Request
new_request addr_vec type_id = record {
  addr = minus_one;
  addr_vec = addr_vec;
  type_id = type_id;
  command = minus_one;
  final_command = minus_one;
  arrive = minus_one;
  depart = minus_one;
}

-- `Request::Type`
abbrev pub type_read : ℕ
type_read = 0

abbrev pub type_write : ℕ
type_write = 1

abbrev pub type_compute : ℕ
type_compute = 3

abbrev pub type_saread : ℕ
type_saread = 4

abbrev pub type_sawrite : ℕ
type_sawrite = 5

abbrev pub type_bkread : ℕ
type_bkread = 6

abbrev pub type_bkwrite : ℕ
type_bkwrite = 7

-- `ReqBuffer::max_size`
abbrev pub max_size : ℕ
max_size = 32

-- `ReqBuffer::enqueue`, `none` where the request is refused.
unfoldable pub enqueue : Request → List Request → Option (List Request)
enqueue r buffer = if leb (length buffer) max_size then some (buffer ++ (r ∷ [])) else none

-- `ReqBuffer::remove`, at an index.
unfoldable pub remove : ℕ → List Request → List Request
remove i [] = []
remove zero (r ∷ buffer) = buffer
remove (suc i) (r ∷ buffer) = r ∷ remove i buffer

-- The virtual functions and tables of `IDRAM` that a controller uses.
pub record Device : Type 1 where
  pub State : Type 0
  pub check_ready : State → ℤ → List ℤ → Bool
  pub get_preq_command : State → ℤ → List ℤ → ℤ
  pub issue_command : ℤ → List ℤ → State → State
  pub request_translation : ℕ → ℤ
  pub is_opening : ℤ → Bool
  pub is_closing : ℤ → Bool
  pub read_latency : ℕ
  pub row_level : ℕ

pub enqueue_room :
    (r : Request) (buffer : List Request)
    → leb (length buffer) max_size ≡ true
    → enqueue r buffer ≡ some (buffer ++ (r ∷ []))
unfolding enqueue
enqueue_room r buffer e = rw e refl

pub enqueue_full :
    (r : Request) (buffer : List Request)
    → leb (length buffer) max_size ≡ false
    → enqueue r buffer ≡ none
unfolding enqueue
enqueue_full r buffer e = rw e refl

-- The buffers never hold more than one request above `max_size`.
pub length-enqueue :
    (r : Request) (buffer after : List Request)
    → enqueue r buffer ≡ some after
    → (length after ≡ length buffer + 1) × (length after ≤ max_size + 1)
unfolding enqueue
length-enqueue r buffer after h = elim (Bool-cases (leb (length buffer) max_size)) [
  | inl le ↦
      subst (λ b. (length b ≡ length buffer + 1) × (length b ≤ max_size + 1))
        (some_inj (sym (enqueue_room r buffer le) ∙ h))
        (
          length-append buffer (r ∷ []),
          omega (arith, length-append buffer (r ∷ []), leb→le (length buffer) max_size le),
        )
  | inr gt ↦ absurd (none≢some (sym (enqueue_full r buffer gt) ∙ h))
]

pub length-remove :
    (i : ℕ) (buffer : List Request) (r : Request)
    → get_elem? buffer i ≡ some r
    → length (remove i buffer) + 1 ≡ length buffer
unfolding remove
length-remove i [] r h = ground arith
length-remove zero (q ∷ buffer) r h = omega arith
length-remove (suc i) (q ∷ buffer) r h = omega (arith, length-remove i buffer r h)

-- What a request asks for: the parts that the memory side never changes.
pub record Asked : Type 0 where
  pub addr : ℤ
  pub addr_vec : List ℤ
  pub type_id : ℕ

abbrev pub asked : Request → Asked
asked r = record { addr = r.addr; addr_vec = r.addr_vec; type_id = r.type_id }

abbrev pub bit : Bool → ℕ
bit true = 1
bit false = 0

-- The requests of a buffer that ask for what the test accepts.
abbrev pub tally : (Asked → Bool) → List Request → ℕ
tally p [] = 0
tally p (r ∷ buffer) = bit (p (asked r)) + tally p buffer

pub tally-append :
    (p : Asked → Bool) (xs ys : List Request) → tally p (xs ++ ys) ≡ tally p xs + tally p ys
tally-append p [] ys = omega arith
tally-append p (x ∷ xs) ys = omega (arith, tally-append p xs ys)

pub tally-remove :
    (p : Asked → Bool) (i : ℕ) (buffer : List Request) (r : Request)
    → get_elem? buffer i ≡ some r
    → tally p (remove i buffer) + bit (p (asked r)) ≡ tally p buffer
unfolding remove
tally-remove p i [] r h = absurd (none≢some h)
tally-remove p zero (q ∷ buffer) r h = omega (arith, ap (λ x. bit (p (asked x))) (some_inj h))
tally-remove p (suc i) (q ∷ buffer) r h = omega (arith, tally-remove p i buffer r h)
