-- ===== src/Routing/Sessions.antt =====
-- The sessions of a registry: `Registry::session`, `evict` and the route's test in src/routing.cpp.
use cogg_cpp.Base.{
  ◌≤◌, ◌≡◌, refl, inl, inr, ◌∙◌, sym, subst, Option, none, some, List, [], ◌∷◌, ◌&&◌, ◌||◌, Bool,
  true, false, not, ltb, length, find, any, Option-cases, Text, text_eq_refl, Result, ok,
  require-bind, row-bind, check-bind, ok-injective, arith, find-none-any,
}
use cogg_cpp.Store.{Execution}
use cogg_cpp.Routing.{Entry, SessionRow, Registry, Route, is_session, has_id, session, skip}

-- The sessions are within the limit, and no two are for the same subject and executor.
abbrev pub AreDistinct : List SessionRow → Type 0
AreDistinct [] = Unit {0}
AreDistinct (r ∷ rest) = (any (is_session r.subject r.id) rest ≡ false) × AreDistinct rest

abbrev pub IsBounded : Registry → Type 0
IsBounded g = (length g.sessions ≤ g.max_sessions) × AreDistinct g.sessions

abbrev pub IsKept : Registry → Registry → Text → Text → Execution → Type 0
IsKept g h subject id execution =
    IsBounded h
    × (h.max_sessions ≡ g.max_sessions)
    × ((backend : Option Text) (nonce : Text)
        → session h subject id backend nonce ≡ ok (h, execution))

session_again :
    (g : Registry) (subject id : Text) (r : SessionRow)
    → find (is_session subject id) g.sessions ≡ some r
    → (backend : Option Text) (nonce : Text)
    → session g subject id backend nonce ≡ ok (g, r.execution)
unfolding session
session_again g subject id r q backend nonce = ground (arith, q)

-- What `session` makes of a registry that has no session yet.
new_session :
    (g h : Registry) (subject id : Text) (backend : Option Text) (nonce : Text)
    (execution : Execution)
    → find (is_session subject id) g.sessions ≡ none
    → session g subject id backend nonce ≡ ok (h, execution)
    → (x : Execution) × (ltb (length g.sessions) g.max_sessions ≡ true)
      × ◌≡◌ {A = Result (Registry × Execution)}
          (ok (
            record g {
              sessions = record { subject = subject; id = id; execution = x } ∷ g.sessions;
            },
            x,
          ))
          (ok (h, execution))
unfolding session
new_session g h subject id backend nonce execution q e =
    let (room, e1) =
      require-bind (ltb (length g.sessions) g.max_sessions)
        "executor session limit; evict an idle session" _ (rw (session, q) at e) in
    let (entry, known, e2) = row-bind (find (has_id id) g.entries) "map::at" _ e1 in
    let (name, built, e3) = row-bind backend "executor factory returned no backend" _ e2 in
    let (valid, e4) = check-bind _ _ e3 in (_, room, e4)

-- When a registry is within its limit, with no two sessions for the same subject and executor, it
-- is so after a session has been asked for; asked again for that subject and executor, it returns
-- the same session and stays as it is, whatever a factory would return.
pub session-IsKept :
    (g h : Registry) (subject id : Text) (backend : Option Text) (nonce : Text)
    (execution : Execution)
    → IsBounded g
    → session g subject id backend nonce ≡ ok (h, execution)
    → IsKept g h subject id execution
unfolding session
session-IsKept g h subject id backend nonce execution bounded e =
    elim (Option-cases (find (is_session subject id) g.sessions)) [
      | inl q ↦
          let (x, room, same) = new_session g h subject id backend nonce execution q e in
          let r : SessionRow = record { subject = subject; id = id; execution = x } in
          let f : Registry = record g { sessions = r ∷ g.sessions } in
          subst (λ (p : Registry × Execution). IsKept g p.0 subject id p.1)
            (ok-injective (f, x) (h, execution) same)
            (
              (
                ground (arith, room),
                (find-none-any (is_session subject id) g.sessions q, bounded.1),
              ),
              refl,
              session_again f subject id r (rw (text_eq_refl subject, text_eq_refl id) refl),
            )
      | inr (r, q) ↦
          subst (λ (p : Registry × Execution). IsKept g p.0 subject id p.1)
            (ok-injective (g, r.execution) (h, execution)
              (sym (session_again g subject id r q backend nonce) ∙ e))
            (bounded, refl, session_again g subject id r q)
    ]

abbrev implies : Bool → Bool → Bool
implies a b = not a || b

-- What a route asks of an executor.
abbrev pub is_served : Route → Entry → Bool
is_served r e =
    e.enabled
    && (implies e.caps.remote r.allow_remote
        && (implies r.require_exact_tokens e.caps.exact_tokens
            && (implies r.require_checkpoint e.caps.checkpoint
                && implies r.require_cancellation e.caps.cancellation)))

abbrev pub is_none : Option Text → Bool
is_none none = true
is_none (some why) = false

-- An executor is not passed over exactly when it is enabled, remote only where the route allows it,
-- and has each capability that the route requires.
pub skip-is_none : (r : Route) (e : Entry) → is_none (skip r e) ≡ is_served r e
unfolding skip
skip-is_none r e = ground arith
