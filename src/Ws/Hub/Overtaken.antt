-- ===== src/Ws/Hub/Overtaken.antt =====
-- Of two requests to a node under one key.
use nodeva.Ws.Hub.Settled.{run-IsArmed}
use nodeva.Prelude.{
  refl, ap, sym, ◌∙◌, ◌||◌, ◌++◌, true, where_rows, inl, inr, Bool-cases, false, All-where_rows,
  not, ◌<◌, ℕ, ◌<◌, ◌≡◌, arith, Bool, ◌==◌, some, List, [], ◌∷◌, All,
}
use nodeva.Ws.Protocol.{Ask}
use nodeva.Ws.Hub.{NodeEntry, Hub, Pending, Timer, Event, requests, socket_of}
use nodeva.Ws.Hub.Steps.{empty_hub, request, step, run, empty_hub}
use nodeva.Ws.Hub.Promises.{Armed, timer_of-below, IsArmed, timer_of-below, Armed}
use nodeva.Ws.Hub.Loses.{is_answered, is_answered-append, Gone, Lost, run-Loses}

-- A row for the request `q` stands under `key`.
abbrev Under : ℕ → ℕ → Pending → Type 0
Under q key p = p.request ≡ q → p.key ≡ key

-- The rows that waited before are for older requests.
Armed-Under :
    (n key : ℕ) (ts : List Timer) (ps : List Pending)
    → All (λ t. t.request < n) ts
    → All (Armed ts) ps
    → All (Under n key) ps
Armed-Under n key ts [] b a = tt
Armed-Under n key ts (p ∷ ps) b a =
    let old = timer_of-below n p.request ts b a.0 in
    ((λ x. absurd (omega arith)), Armed-Under n key ts ps b a.1)

-- No row for a request is left where its key is taken.
Under-Gone :
    (q key : ℕ) (ps : List Pending)
    → All (Under q key) ps
    → All (Gone q) (where_rows (λ x. not (x.key == key)) ps)
Under-Gone q key [] u = tt
Under-Gone q key (p ∷ ps) u = elim (Bool-cases (p.key == key)) [
  | inl t ↦ rw t (Under-Gone q key ps u.1)
  | inr t ↦
      let other : Gone q p = λ same. ground (arith, u.0 same, t) in
      rw t (other, Under-Gone q key ps u.1)
]

asked-Lost :
    (key : ℕ) (ask : Ask) (e : NodeEntry) (h : Hub)
    → IsArmed h
    → Lost h.next (Under h.next key) (request (some e) key ask h).1
unfolding request
asked-Lost key ask e h a = record {
  gone = (
    (λ x. refl),
    All-where_rows (Under h.next key) (λ x. not (x.key == key)) h.pending
        (Armed-Under h.next key h.timers h.pending a.below a.armed),
  );
  made = omega arith;
}

again-Lost :
    (q key : ℕ) (ask : Ask) (e : NodeEntry) (h : Hub)
    → Lost q (Under q key) h
    → Lost q (Gone q) (request (some e) key ask h).1
unfolding request
again-Lost q key ask e h l =
    let made = l.made in
    record { gone = ((λ x. omega arith), Under-Gone q key h.pending l.gone); made = omega arith }

or_assoc : (a b c : Bool) → a || (b || c) ≡ (a || b) || c
or_assoc true b c = refl
or_assoc false b c = refl

or_false : (a : Bool) → a || false ≡ a
or_false true = refl
or_false false = refl

is_answered-run_append :
    (verify : ℕ → ℕ → ℕ → Bool) (q : ℕ) (xs ys : List Event) (h : Hub)
    → let one = run verify xs h in
      is_answered q (run verify (xs ++ ys) h).0
      ≡ is_answered q one.0 || is_answered q (run verify ys one.1).0
unfolding run is_answered
is_answered-run_append verify q [] ys h = refl
is_answered-run_append verify q (x ∷ xs) ys h =
    let one = step verify x h in
    is_answered-append q one.0 (run verify (xs ++ ys) one.1).0
    ∙ ap (λ b. is_answered q one.0 || b) (is_answered-run_append verify q xs ys one.1)
    ∙ or_assoc (is_answered q one.0) _ _
    ∙ ap (λ b. b || is_answered q (run verify ys (run verify xs one.1).1).0)
        (sym (is_answered-append q one.0 (run verify xs one.1).0))

module _ (verify : ℕ → ℕ → ℕ → Bool) (n key : ℕ) (ask ask' : Ask) (h : Hub) (a : IsArmed h)
    {e e' : NodeEntry} where
  second_silent :
      (between es : List Event)
      → socket_of n h.nodes ≡ some e
      → let h' = (run verify (requests n key ask ∷ between) h).1 in
        socket_of n h'.nodes ≡ some e'
        → is_answered h.next (run verify (requests n key ask' ∷ es) h').0 ≡ false
  unfolding run step is_answered request
  second_silent between es o o' =
      let asked = (request (some e) key ask h).1 in
      let one : (step verify (requests n key ask) h).1 ≡ asked = rw (step, o) refl in
      let h' = (run verify (requests n key ask ∷ between) h).1 in
      let under : Lost h.next (Under h.next key) h' =
        (run-Loses h.next verify between (step verify (requests n key ask) h).1).kept
          (Under h.next key) (λ p g x. absurd (g x)) (rw one (asked-Lost key ask e h a)) in
      let next = (request (some e') key ask' h').1 in
      rw (run, step, o', request, is_answered)
        ((run-Loses h.next verify es next).silent (again-Lost h.next key ask' e' h' under))

-- Of two requests under one key to a node that the hub lists, the first is answered, if at all, before
-- the second is made, whatever happened before, happens between them and follows: after that it ends, if
-- it ends, with its timeout.
pub is_answered-run :
    (verify : ℕ → ℕ → ℕ → Bool) (before between es : List Event) (n key : ℕ) (ask ask' : Ask)
    {e e' : NodeEntry}
    → let h = (run verify before empty_hub).1 in
      let first_part = requests n key ask ∷ between in
      let h' = (run verify first_part h).1 in
      socket_of n h.nodes ≡ some e
      → socket_of n h'.nodes ≡ some e'
      → is_answered h.next (run verify (first_part ++ requests n key ask' ∷ es) h).0
        ≡ is_answered h.next (run verify first_part h).0
is_answered-run verify before between es n key ask ask' {e} {e'} o o' =
    let h = (run verify before empty_hub).1 in
    let first_part = requests n key ask ∷ between in
    let never = second_silent verify n key ask ask' h (run-IsArmed verify before) between es o o' in
    is_answered-run_append verify h.next first_part (requests n key ask' ∷ es) h
    ∙ rw never (or_false (is_answered h.next (run verify first_part h).0))
