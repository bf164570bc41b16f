-- ===== src/Session/Lifecycle.antt =====
-- The life of a session over any number of transitions.
use dotfile.Prelude.{
  ℕ, ◌+◌, List, [], ◌∷◌, Result, ok, ◌≡◌, ◌≢◌, ◌↔◌, refl, >>=-ok, ◌>>=◌, ap, arith,
}
use dotfile.Session.{
  SessionState, created, running, blocked, finished, failed, reopened, TransitionError, transition,
}

-- a state whose process may exist or is about to
pub data IsOpen : SessionState → Type 0 where
  open_created : IsOpen created
  open_reopened : IsOpen reopened
  open_running : IsOpen running
  open_blocked : IsOpen blocked

pub data IsClosed : SessionState → Type 0 where
  closed_finished : IsClosed finished
  closed_failed : IsClosed failed

-- The diagram: an open session may close, a session that is open but not running may start
-- running, a running one may block, and a closed one may only be opened again.
pub data Arrow : SessionState → SessionState → Type 0 where
  close : {s t : SessionState} → IsOpen s → IsClosed t → Arrow s t
  start : {s : SessionState} → IsOpen s → s ≢ running → Arrow s running
  block : Arrow running blocked
  reopen : {s : SessionState} → IsClosed s → Arrow s reopened

ruleset arrows = (
  close, start, block, reopen, open_created, open_reopened, open_running, open_blocked,
  closed_finished, closed_failed,
)

transition-Arrow : (s t : SessionState) → transition s t ≡ ok t → Arrow s t
unfolding transition
transition-Arrow s t h = grind (arith, arrows)

Arrow-transition : (s t : SessionState) → Arrow s t → transition s t ≡ ok t
unfolding transition
Arrow-transition s t (close open_created closed_finished) = refl
Arrow-transition s t (close open_created closed_failed) = refl
Arrow-transition s t (close open_reopened closed_finished) = refl
Arrow-transition s t (close open_reopened closed_failed) = refl
Arrow-transition s t (close open_running closed_finished) = refl
Arrow-transition s t (close open_running closed_failed) = refl
Arrow-transition s t (close open_blocked closed_finished) = refl
Arrow-transition s t (close open_blocked closed_failed) = refl
Arrow-transition s t (start open_created n) = refl
Arrow-transition s t (start open_reopened n) = refl
Arrow-transition s t (start open_running n) = absurd (n refl)
Arrow-transition s t (start open_blocked n) = refl
Arrow-transition s t block = refl
Arrow-transition s t (reopen closed_finished) = refl
Arrow-transition s t (reopen closed_failed) = refl

-- The code accepts exactly the arrows of the diagram.
pub transition-iff-Arrow : (s t : SessionState) → (transition s t ≡ ok t) ↔ Arrow s t
transition-iff-Arrow s t = (transition-Arrow s t, Arrow-transition s t)

-- the transitions asked for, one after the other, until one is refused
unfoldable pub advance : SessionState → List SessionState → Result TransitionError SessionState
advance s [] = ok s
advance s (t ∷ ts) = do next ← transition s t; advance next ts

-- the states asked for that close the session, and those that open it again
abbrev pub closes : SessionState → ℕ
closes finished = 1
closes failed = 1
closes _ = 0

abbrev pub reopens : SessionState → ℕ
reopens reopened = 1
reopens _ = 0

abbrev pub sum : (SessionState → ℕ) → List SessionState → ℕ
sum f [] = 0
sum f (s ∷ ss) = f s + sum f ss

transition-balance :
    (s t u : SessionState) → transition s t ≡ ok u → closes u + closes s ≡ reopens u + closes u
unfolding transition
transition-balance s t u h = ground arith

transition-eq-ok : (s t u : SessionState) → transition s t ≡ ok u → u ≡ t
unfolding transition
transition-eq-ok s t u h = ground arith

-- Closing and opening again alternate: over any accepted run, the number of closings, with one
-- more if the session was closed at the start, is the number of reopenings, with one more if it is
-- closed at the end.
pub advance-balance :
    (s s' : SessionState) (ts : List SessionState)
    → advance s ts ≡ ok s'
    → sum closes ts + closes s ≡ sum reopens ts + closes s'
unfolding advance
advance-balance s s' [] h = ground arith
advance-balance s s' (t ∷ ts) h =
    let (next, first, rest) = >>=-ok (transition s t) _ h in
    omega (
      arith,
      advance-balance next s' ts rest,
      transition-balance s t next first,
      ap closes (transition-eq-ok s t next first),
      ap reopens (transition-eq-ok s t next first),
    )
