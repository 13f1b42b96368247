-- ===== src/Ws/Hub/Promises.antt =====
-- The promises of the requests to a node: each ends once.
use nodeva.Prelude.{
  ℕ, ◌+◌, ◌<◌, ◌≢◌, ltb, ◌≡◌, inl, inr, arith, ◌==◌, Option, none, some, List, [], ◌∷◌, ◌++◌,
  is_some, if◌then◌else◌, Bool-cases, ◌∙◌, ap, sym, first, All, eqb→eq,
}
use nodeva.Ws.Protocol.{Outcome, HubEffect, settles}
use nodeva.Ws.Hub.{Hub, Pending, Timer, Outgoing, drop_pending, drop_timer}

abbrev pub timer_of : ℕ → List Timer → Option Timer
timer_of r = first (λ t. t.request == r)

-- How often the promise of a request is settled by some effects.
unfoldable pub settled : ℕ → List HubEffect → ℕ
settled r [] = 0
settled r (settles q _ ∷ es) = (if q == r then 1 else 0) + settled r es
settled r (_ ∷ es) = settled r es

pub settled-append :
    (r : ℕ) (xs ys : List HubEffect) → settled r (xs ++ ys) ≡ settled r xs + settled r ys
unfolding settled
settled-append r [] ys = omega arith
settled-append r (settles q o ∷ xs) ys = ground (arith, settled-append r xs ys)
settled-append r (_ ∷ xs) ys = settled-append r xs ys

-- Whether a request waits with its timer running, and whether it was made.
abbrev pub waits : ℕ → Hub → ℕ
waits r h = if is_some (timer_of r h.timers) then 1 else 0

abbrev pub made : ℕ → Hub → ℕ
made r h = if ltb r h.next then 1 else 0

timer_of-drop_timer :
    (r q : ℕ) (ts : List Timer)
    → timer_of r (drop_timer q ts) ≡ (if q == r then none else timer_of r ts)
timer_of-drop_timer r q [] = ground arith
timer_of-drop_timer r q (t ∷ ts) = ground (arith, timer_of-drop_timer r q ts)

pub timer_of-request :
    (r : ℕ) (ts : List Timer) {t : Timer} → timer_of r ts ≡ some t → t.request ≡ r
timer_of-request r [] {t} e = cc
timer_of-request r (x ∷ ts) {t} e = ground (arith, timer_of-request r ts {t = t})

pub timer_of-below :
    (n r : ℕ) (ts : List Timer) {t : Timer}
    → All (λ t. t.request < n) ts
    → timer_of r ts ≡ some t
    → r < n
timer_of-below n r [] {t} h e = cc
timer_of-below n r (x ∷ ts) {t} h e = ground (arith, timer_of-below n r ts {t = t} h.1)

-- A pending row's timer runs, with the row's key.
abbrev pub Armed : List Timer → Pending → Type 0
Armed ts p = timer_of p.request ts ≡ some (record { request = p.request; key = p.key })

-- What the calls and the timers keep of `_pending`.
pub record IsArmed (h : Hub) : Type 0 where
  pub armed : All (Armed h.timers) h.pending
  pub below : All (λ t. t.request < h.next) h.timers

-- The law of the promises, for one handler: what was made is settled or waits.
pub record Settles (h : Hub) (o : Outgoing) : Type 0 where
  pub kept : IsArmed h → IsArmed o.1
  pub law : (r : ℕ) → IsArmed h → settled r o.0 + waits r o.1 + made r h ≡ waits r h + made r o.1

-- Handlers that touch neither the requests nor their promises.
pub Settles-same :
    (h : Hub) (o : Outgoing)
    → o.1.pending ≡ h.pending
    → o.1.timers ≡ h.timers
    → o.1.next ≡ h.next
    → ((r : ℕ) → settled r o.0 ≡ 0)
    → Settles h o
Settles-same h o p t n s = record {
  kept = λ a. record { armed = rw (p, t) a.armed; below = rw (t, n) a.below };
  law = λ r a. rw (s r, t, n) (omega arith);
}

below-drop_timer :
    (n q : ℕ) (ts : List Timer)
    → All (λ t. t.request < n) ts
    → All (λ t. t.request < n) (drop_timer q ts)
below-drop_timer n q [] h = tt
below-drop_timer n q (t ∷ ts) h = ground (arith, below-drop_timer n q ts h.1)

Armed-drop_timer :
    (t : Timer) (ts : List Timer) (p : Pending)
    → timer_of t.request ts ≡ some t
    → p.key ≢ t.key
    → Armed ts p
    → Armed (drop_timer t.request ts) p
Armed-drop_timer t ts p e k a = elim (Bool-cases (t.request == p.request)) [
  | inl q ↦
      let same : some t ≡ some (record { request = p.request; key = p.key }) =
        sym e ∙ ap (λ r. timer_of r ts) (eqb→eq t.request p.request q) ∙ a in
      absurd (k cc)
  | inr q ↦ timer_of-drop_timer p.request t.request ts ∙ rw q a
]

Armed-drop_pending :
    (t : Timer) (ts : List Timer) (ps : List Pending)
    → timer_of t.request ts ≡ some t
    → All (Armed ts) ps
    → All (Armed (drop_timer t.request ts)) (drop_pending t.key ps)
Armed-drop_pending t ts [] e h = tt
Armed-drop_pending t ts (p ∷ ps) e h = elim (Bool-cases (p.key == t.key)) [
  | inl k ↦ rw k (Armed-drop_pending t ts ps e h.1)
  | inr k ↦ rw k (Armed-drop_timer t ts p e (ground arith) h.0, Armed-drop_pending t ts ps e h.1)
]

-- A reply and a timer end a request alike: its row goes and its timer stops.
abbrev pub ended : Timer → Hub → Hub
ended t h = record h {
  pending = drop_pending t.key h.pending;
  timers = drop_timer t.request h.timers;
}

ended-IsArmed :
    (t : Timer) (h : Hub) → timer_of t.request h.timers ≡ some t → IsArmed h → IsArmed (ended t h)
ended-IsArmed t h e a = record {
  armed = Armed-drop_pending t h.timers h.pending e a.armed;
  below = below-drop_timer h.next t.request h.timers a.below;
}

pub ended-Settles :
    (t : Timer) (h : Hub) (o : Outcome)
    → (IsArmed h → timer_of t.request h.timers ≡ some t)
    → Settles h (settles t.request o ∷ [], ended t h)
unfolding settled
ended-Settles t h o e = record {
  kept = λ a. ended-IsArmed t h (e a) a;
  law = λ r a. elim (Bool-cases (t.request == r)) [
    | inl q ↦
        let same = ap (λ x. timer_of x h.timers) (sym (eqb→eq t.request r q)) ∙ e a in
        rw (timer_of-drop_timer r t.request h.timers, settled, q, same) (omega arith)
    | inr q ↦ rw (timer_of-drop_timer r t.request h.timers, settled, q) (omega arith)
  ];
}

pub Settles-trans :
    (h : Hub) (o p : Outgoing) → Settles h o → Settles o.1 p → Settles h (o.0 ++ p.0, p.1)
Settles-trans h o p x y = record {
  kept = λ a. y.kept (x.kept a);
  law = λ r a.
      let first_part = x.law r a in
      let second_part = y.law r (x.kept a) in rw (settled-append r o.0 p.0) (omega arith);
}
