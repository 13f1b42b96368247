-- ===== src/Frontend/Checkout.antt =====
-- `confirmAndPay` of frontend/src/lib/confirmPayment.js: what happens in Razorpay's modal after the backend
-- has asked for a payment. A promise ends with the first call of `resolve` or `reject`; later ones do
-- nothing. The answer of POST /reservations/:id/confirm/verify is part of the event, and a message to the
-- user is a number.
pub mod Ends
use nodeva.Prelude.{ℕ, Bool, Option, none, some, List, [], ◌∷◌}

-- `handled` is the rejection with RAZORPAY_HANDLED.
pub data Ending : Type 0 where
  paid : ℕ → Ending
  handled : Ending

-- The handler's call after a payment, with the status that the backend answered or its error; the modal
-- is dismissed; the event 'payment.failed'.
pub data ModalEvent : Type 0 where
  verified : ℕ → ModalEvent
  not_verified : ℕ → ModalEvent
  dismissed : ModalEvent
  payment_failed : Option ℕ → ModalEvent

pub record Checkout : Type 0 where
  pub ending : Option Ending
  pub shown : List ℕ

-- 'Payment cancelled.' and 'Payment failed.'
abbrev pub cancelled_text : ℕ
cancelled_text = 0

abbrev pub failed_text : ℕ
failed_text = 1

-- `resolve` and `reject`
abbrev pub settle_with : Ending → Option Ending → Option Ending
settle_with e none = some e
settle_with e (some first') = some first'

abbrev pub shows : ℕ → Checkout → Checkout
shows message c = record { ending = settle_with handled c.ending; shown = message ∷ c.shown }

unfoldable pub on_modal : ModalEvent → Checkout → Checkout
on_modal (verified status) c = record c { ending = settle_with (paid status) c.ending }
on_modal (not_verified message) c = shows message c
on_modal dismissed c = shows cancelled_text c
on_modal (payment_failed none) c = shows failed_text c
on_modal (payment_failed (some description)) c = shows description c

unfoldable pub after_modal : List ModalEvent → Checkout → Checkout
unfolding on_modal
after_modal [] c = c
after_modal (e ∷ es) c = after_modal es (on_modal e c)

-- The modal is opened.
abbrev pub opened_modal : Checkout
opened_modal = record { ending = none; shown = [] }
