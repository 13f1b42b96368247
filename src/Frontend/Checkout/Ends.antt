-- ===== src/Frontend/Checkout/Ends.antt =====
-- How a checkout ends.
use nodeva.Prelude.{◌≡◌, refl, none, some, List, [], ◌∷◌}
use nodeva.Frontend.Checkout.{
  Ending, paid, handled, ModalEvent, verified, not_verified, dismissed, payment_failed, Checkout,
  on_modal, after_modal, opened_modal,
}

settled-on_modal :
    (e : ModalEvent) (c : Checkout) {x : Ending}
    → c.ending ≡ some x
    → (on_modal e c).ending ≡ some x
unfolding on_modal
settled-on_modal (verified s) c e = rw (on_modal, e) refl
settled-on_modal (not_verified m) c e = rw (on_modal, e) refl
settled-on_modal dismissed c e = rw (on_modal, e) refl
settled-on_modal (payment_failed none) c e = rw (on_modal, e) refl
settled-on_modal (payment_failed (some d)) c e = rw (on_modal, e) refl

ending-after_modal :
    (es : List ModalEvent) (c : Checkout) {x : Ending}
    → c.ending ≡ some x
    → (after_modal es c).ending ≡ some x
unfolding after_modal
ending-after_modal [] c e = e
ending-after_modal (m ∷ es) c e = ending-after_modal es (on_modal m c) (settled-on_modal m c e)

-- A payment that the backend has verified, and every other event, with what it ends the promise with.
abbrev pub ending_of : ModalEvent → Ending
ending_of (verified status) = paid status
ending_of _ = handled

-- The first event decides how the promise ends, whatever follows: a verified payment with its status,
-- and every other event with a rejection.
pub first_event_decides :
    (e : ModalEvent) (es : List ModalEvent)
    → (after_modal (e ∷ es) opened_modal).ending ≡ some (ending_of e)
unfolding after_modal on_modal
first_event_decides (verified s) es = ending-after_modal es _ refl
first_event_decides (not_verified m) es = ending-after_modal es _ refl
first_event_decides dismissed es = ending-after_modal es _ refl
first_event_decides (payment_failed none) es = ending-after_modal es _ refl
first_event_decides (payment_failed (some d)) es = ending-after_modal es _ refl
