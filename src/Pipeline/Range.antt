-- ===== src/Pipeline/Range.antt =====
-- Which numbers `build_requests` accepts, and what it raises for the others.
use conduit_client_python.Prelude.{
  ◌≡◌, refl, ◌⊎◌, inl, inr, Bool-cases, String, Option, none, some, List, [], ◌∷◌, ◌^◌, All, ltb,
  ltb→lt, ltb→le, arith, ℕ, ◌<◌, if◌then◌else◌,
}
use conduit_client_python.Prelude.Int.{ℤ, pos, negsuc, InInt32, InUint64}
use conduit_client_python.Errors.{Exception, Outcome, ok, raised, ◌>>=◌}
use conduit_client_python.Wire.{int32, uint64}
use conduit_client_python.Pipeline.{
  Pipeline, ProcessorSpec, DlqSpec, build_requests, optional, processor_request, processor_requests,
  dlq_request,
}

-- A result that is there exactly under a condition, and is protobuf's `ValueError` without it.
abbrev pub Decides {ℓ} : {A : Type ℓ} → Outcome A → Type 0 → Type ℓ
Decides {A} r P =
    ((a : A) × (r ≡ ok a) × P)
    ⊎ ((text : String) × (r ≡ raised (Exception.value_error text)) × (P → ⊥))

-- A number that is given lies in the range.
abbrev pub Fits : (ℤ → Type 0) → Option ℤ → Type 0
Fits P none = Unit
Fits P (some n) = P n

abbrev pub DlqFits : Option DlqSpec → Type 0
DlqFits none = Unit
DlqFits (some d) = Fits InUint64 d.window_size × Fits InUint64 d.window_nack_threshold

-- Every number of the pipeline fits its field.
abbrev pub IsSendable : Pipeline → Type 0
IsSendable p = All (λ (q : ProcessorSpec). Fits InInt32 q.workers) p.processors × DlqFits p.dlq

-- A number is set when it is below a bound.
below-Decides :
    (bound n : ℕ) (z : ℤ)
    → Decides
        (if ltb n bound then ok z else raised (Exception.value_error "Value out of range"))
        (n < bound)
below-Decides bound n z = elim (Bool-cases (ltb n bound)) [
  | inl e ↦ rw e (inl (z, refl, ltb→lt n bound e))
  | inr e ↦ let far = ltb→le n bound e in rw e (inr ("Value out of range", refl, λ h. omega arith))
]

int32-Decides : (n : ℤ) → Decides (int32 n) (InInt32 n)
unfolding int32
int32-Decides (pos n) = below-Decides (2 ^ 31) n (pos n)
int32-Decides (negsuc n) = below-Decides (2 ^ 31) n (negsuc n)

uint64-Decides : (n : ℤ) → Decides (uint64 n) (InUint64 n)
unfolding uint64
uint64-Decides (pos n) = below-Decides (2 ^ 64) n (pos n)
uint64-Decides (negsuc n) = inr ("Value out of range", refl, λ h. h)

optional-Decides :
    (field : ℤ → Outcome ℤ) (P : ℤ → Type 0)
    → ((n : ℤ) → Decides (field n) (P n))
    → (n : Option ℤ) → Decides (optional field n) (Fits P n)
unfolding optional
optional-Decides field P h none = inl (pos 0, refl, tt)
optional-Decides field P h (some n) = h n

module _ {A B : Type 0} {P Q : Type 0} where
  bind-Decides :
      (r : Outcome A) (f : A → Outcome B)
      → Decides r P
      → ((a : A) → Decides (f a) Q)
      → Decides (r >>= f) (P × Q)
  bind-Decides r f (inr (text, e, bad)) next = inr (text, rw e refl, λ h. bad h.0)
  bind-Decides r f (inl (a, e, good)) next = rw e (go (next a))
    where
      go : Decides (f a) Q → Decides (f a) (P × Q)
      go (inl (b, k, fine)) = inl (b, k, (good, fine))
      go (inr (text, k, bad)) = inr (text, k, λ h. bad h.1)

module _ {A B : Type 0} {P : Type 0} where
  map-Decides : (r : Outcome A) (f : A → B) → Decides r P → Decides (r >>= λ a. ok (f a)) P
  map-Decides r f (inr (text, e, bad)) = inr (text, rw e refl, bad)
  map-Decides r f (inl (a, e, good)) = inl (f a, rw e refl, good)

processor_request-Decides :
    (p : ProcessorSpec) → Decides (processor_request p) (Fits InInt32 p.workers)
unfolding processor_request
processor_request-Decides p =
    map-Decides (optional int32 p.workers) _
      (optional-Decides int32 InInt32 int32-Decides p.workers)

processor_requests-Decides :
    (ps : List ProcessorSpec)
    → Decides (processor_requests ps) (All (λ (q : ProcessorSpec). Fits InInt32 q.workers) ps)
unfolding processor_requests
processor_requests-Decides [] = inl ([], refl, tt)
processor_requests-Decides (p ∷ ps) =
    bind-Decides (processor_request p) _ (processor_request-Decides p)
      λ first. map-Decides (processor_requests ps) _ (processor_requests-Decides ps)

dlq_request-Decides : (d : Option DlqSpec) → Decides (dlq_request d) (DlqFits d)
unfolding dlq_request
dlq_request-Decides none = inl (none, refl, tt)
dlq_request-Decides (some d) =
    bind-Decides (optional uint64 d.window_size) _
      (optional-Decides uint64 InUint64 uint64-Decides d.window_size)
      λ size.
        map-Decides (optional uint64 d.window_nack_threshold) _
          (optional-Decides uint64 InUint64 uint64-Decides d.window_nack_threshold)

-- `build_requests` returns a plan exactly when every number of workers that is given fits an `int32`,
-- and the window and its threshold, if they are given, a `uint64`; else it raises a `ValueError`.
pub build_requests-Decides : (p : Pipeline) → Decides (build_requests p) (IsSendable p)
unfolding build_requests
build_requests-Decides p =
    bind-Decides (processor_requests p.processors) _ (processor_requests-Decides p.processors)
      λ processors. map-Decides (dlq_request p.dlq) _ (dlq_request-Decides p.dlq)

-- The `ValueError` of a result that is no other exception's.
pub build_requests_raised :
    (p : Pipeline) {x : Exception}
    → build_requests p ≡ raised x
    → (text : String) × (x ≡ Exception.value_error text)
build_requests_raised p {x} h = go (build_requests-Decides p)
  where
    go :
        Decides (build_requests p) (IsSendable p)
        → (text : String) × (x ≡ Exception.value_error text)
    go (inl (plan, e, fits)) = cc
    go (inr (text, e, unfit)) = (text, cc)
