-- ===== src/Sdk/Client/Delivery.antt =====
-- What the server has, against what the client holds to be delivered
-- (sdks/typescript/src/client.ts).
use mathlib.Core.List.{Sublistᴰ}
use raceway.Prelude.{
  ℕ, ◌≡◌, ◌≢◌, refl, Bool, true, false, List, [], ◌∷◌, ◌++◌, Option, arith, Bool-cases, inl, inr,
  All,
}
use raceway.Text.{Text}
use raceway.Sdk.Client.{new_client, flush, Answer, ok, not_ok, failed, settle}
use raceway.Sdk.Client.Accounting.{
  Action, records, flushes, timer, stops, answered, System, is_success, was_taken, answer, step,
  run, start, held, records_of, run-accounted,
}

module _ {ℓ} {A : Type ℓ} where
  Sublist-append_right :
      {xs ys : List A} (zs : List A) → Sublistᴰ xs ys → Sublistᴰ (xs ++ zs) (ys ++ zs)
  Sublist-append_right [] Sublistᴰ.slnil = Sublistᴰ.slnil
  Sublist-append_right (z ∷ zs) Sublistᴰ.slnil =
      Sublistᴰ.cons-cons refl (Sublist-append_right zs Sublistᴰ.slnil)
  Sublist-append_right zs (Sublistᴰ.cons h) = Sublistᴰ.cons (Sublist-append_right zs h)
  Sublist-append_right zs (Sublistᴰ.cons-cons e h) =
      Sublistᴰ.cons-cons e (Sublist-append_right zs h)

  Sublist-append_more : {xs ys : List A} (zs : List A) → Sublistᴰ xs ys → Sublistᴰ xs (ys ++ zs)
  Sublist-append_more [] Sublistᴰ.slnil = Sublistᴰ.slnil
  Sublist-append_more (z ∷ zs) Sublistᴰ.slnil =
      Sublistᴰ.cons (Sublist-append_more zs Sublistᴰ.slnil)
  Sublist-append_more zs (Sublistᴰ.cons h) = Sublistᴰ.cons (Sublist-append_more zs h)
  Sublist-append_more zs (Sublistᴰ.cons-cons e h) = Sublistᴰ.cons-cons e (Sublist-append_more zs h)

abbrev IsServed : System → Type 0
IsServed s = Sublistᴰ s.confirmed s.served

answer-IsServed :
    (a : Answer) (taken : Bool) (s : System) → IsServed s → IsServed (answer a taken s)
unfolding answer
answer-IsServed (ok true) taken s h = Sublist-append_right s.client.in_flight h
answer-IsServed (ok false) taken s h = Sublist-append_more s.client.in_flight h
answer-IsServed (not_ok t) true s h = Sublist-append_more s.client.in_flight h
answer-IsServed (not_ok t) false s h = h
answer-IsServed failed true s h = Sublist-append_more s.client.in_flight h
answer-IsServed failed false s h = h

step-IsServed : (a : Action) (s : System) → IsServed s → IsServed (step a s)
unfolding step
step-IsServed (records e) s h = h
step-IsServed flushes s h = h
step-IsServed timer s h = h
step-IsServed stops s h = h
step-IsServed (answered a taken) s h = elim (Bool-cases s.client.is_flushing) [
  | inl yes_flushing ↦ rw yes_flushing (answer-IsServed a taken s h)
  | inr idle ↦ rw idle h
]

pub run-IsServed : (actions : List Action) (s : System) → IsServed s → IsServed (run actions s)
unfolding run
run-IsServed [] s h = h
run-IsServed (a ∷ actions) s h = run-IsServed actions (step a s) (step-IsServed a s h)

-- An answer that tells the truth: the server took the events exactly if it said so in a reply that
-- the client read.
abbrev pub IsHonest : Action → Type 0
IsHonest (answered a taken) = was_taken a taken ≡ is_success a
IsHonest _ = Unit

step-honest :
    (a : Action) (s : System)
    → IsHonest a
    → s.served ≡ s.confirmed
    → (step a s).served ≡ (step a s).confirmed
unfolding step answer
step-honest (records e) s h e' = e'
step-honest flushes s h e' = e'
step-honest timer s h e' = e'
step-honest stops s h e' = e'
step-honest (answered a taken) s h e' = ground (arith, h, e')

run-honest :
    (actions : List Action) (s : System)
    → All IsHonest actions
    → s.served ≡ s.confirmed
    → (run actions s).served ≡ (run actions s).confirmed
unfolding run
run-honest [] s h e = e
run-honest (a ∷ actions) s h e = run-honest actions (step a s) h.1 (step-honest a s h.0 e)

-- If every answer tells the truth, the server has exactly the recorded events less those that the
-- client still holds, in their order and each once.
pub served-exactly :
    (url : Text) (batch interval : ℕ) (debug : Bool) (key : Option Text) (actions : List Action)
    → All IsHonest actions
    → let s = run actions (start (new_client url batch interval debug key)) in
      records_of actions ≡ s.served ++ held s.client
unfolding start
served-exactly url batch interval debug key actions h =
    rw (run-honest actions (start (new_client url batch interval debug key)) h refl)
      (run-accounted url batch interval debug key actions)

-- A success whose body cannot be read as JSON sends the events a second time: the server takes
-- them, they go back into the buffer, and the next flush delivers them again, in front of what was
-- buffered since.
pub unread_success_doubles :
    (s : System)
    → s.client.is_flushing ≡ true
    → s.client.in_flight ≢ []
    → (run (answered (ok false) true ∷ flushes ∷ answered (ok true) true ∷ []) s).served
      ≡ (s.served ++ s.client.in_flight) ++ (s.client.in_flight ++ s.client.event_buffer)
unfolding run step answer settle flush
unread_success_doubles s h n = ground (arith, h, n)
