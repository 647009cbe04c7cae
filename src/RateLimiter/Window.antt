-- ===== src/RateLimiter/Window.antt =====
-- The rate that src/security/rate-limiter.ts admits.
use errorcore.Common.{
  ℕ, ◌+◌, ◌≤◌, ◌<◌, Bool, true, false, ◌&&◌, ◌≡◌, refl, subst₂, sym, some, ◌∙◌, ap, inl, inr, List,
  [], ◌∷◌, ◌++◌, append_assoc, append-nil, ltb, leb, if◌then◌else◌, length, keep_if, keep_if-append,
  length-append, Bool-cases, arith, ltb→lt, leb→le,
}
use errorcore.RateLimiter.{RateLimiter, try_acquire, is_recent, new_rate_limiter}

-- The times at which `tryAcquire` says yes, of the times at which it is called.
unfoldable pub grants : List ℕ → RateLimiter → List ℕ
grants [] r = []
grants (now ∷ nows) r =
    let rest = grants nows (try_acquire now r).0 in
    if (try_acquire now r).1 then now ∷ rest else rest

-- The clock does not go back.
abbrev pub Ascending : ℕ → List ℕ → Type 0
Ascending low [] = Unit {0}
Ascending low (now ∷ nows) = (low ≤ now) × Ascending now nows

-- The time lies in the window that ends at `t`.
abbrev pub in_window : ℕ → ℕ → ℕ → Bool
in_window window_ms t time = is_recent window_ms t time && leb time t

keep_if-recent :
    (w now later : ℕ) (ts : List ℕ)
    → now ≤ later
    → keep_if (is_recent w later) (keep_if (is_recent w now) ts) ≡ keep_if (is_recent w later) ts
keep_if-recent w now later [] h = refl
keep_if-recent w now later (t ∷ ts) h =
    let ih = keep_if-recent w now later ts h in
    elim (Bool-cases (is_recent w now t)) [
      | inl e ↦ elim (Bool-cases (is_recent w later t)) [
        | inl f ↦ rw (e, f) (ap (λ xs. t ∷ xs) ih)
        | inr f ↦ rw (e, f) ih
      ]
      | inr e ↦ let f : is_recent w later t ≡ false = ground arith in rw (e, f) ih
    ]

window-le :
    (w now t : ℕ) (ts : List ℕ)
    → now ≤ t
    → length (keep_if (in_window w t) ts) ≤ length (keep_if (is_recent w now) ts)
window-le w now t [] h = omega arith
window-le w now t (x ∷ ts) h = ground (arith, window-le w now t ts h)

-- What the limiter keeps is what its grants `gs` so far, the last call at `now`, make it keep; and
-- no window holds more of them than the limit.
record Admits (now : ℕ) (gs : List ℕ) (r : RateLimiter) : Type 0 where
  agree :
      (later : ℕ)
      → now ≤ later
      → keep_if (is_recent r.window_ms later) r.timestamps
        ≡ keep_if (is_recent r.window_ms later) gs
  bounded : (t : ℕ) → length (keep_if (in_window r.window_ms t) gs) ≤ r.max_captures

single : (p : ℕ → Bool) (x : ℕ) → length (keep_if p (x ∷ [])) ≤ 1
single p x = ground arith

filtered-agree :
    (now now' later : ℕ) (gs : List ℕ) (r : RateLimiter)
    → Admits now gs r
    → now ≤ now'
    → now' ≤ later
    → keep_if (is_recent r.window_ms later) (keep_if (is_recent r.window_ms now') r.timestamps)
      ≡ keep_if (is_recent r.window_ms later) gs
filtered-agree now now' later gs r a h k =
    keep_if-recent r.window_ms now' later r.timestamps k ∙ a.agree later (omega arith)

window-granted :
    (now now' t : ℕ) (gs : List ℕ) (r : RateLimiter)
    → Admits now gs r
    → now ≤ now'
    → length (keep_if (is_recent r.window_ms now') r.timestamps) < r.max_captures
    → length (keep_if (in_window r.window_ms t) gs)
        + length (keep_if (in_window r.window_ms t) (now' ∷ []))
      ≤ r.max_captures
window-granted now now' t gs r a h room = elim (Bool-cases (leb now' t)) [
  | inl e ↦
      let le : now' ≤ t = leb→le now' t e in
      omega (
        arith,
        window-le r.window_ms now' t gs le,
        single (in_window r.window_ms t) now',
        ap length (a.agree now' h),
      )
  | inr e ↦
      let out : length (keep_if (in_window r.window_ms t) (now' ∷ [])) ≡ 0 = ground arith in
      omega (arith, out, a.bounded t)
]

granted-Admits :
    (now now' : ℕ) (gs : List ℕ) (r : RateLimiter)
    → Admits now gs r
    → now ≤ now'
    → length (keep_if (is_recent r.window_ms now') r.timestamps) < r.max_captures
    → Admits now'
        (gs ++ now' ∷ [])
        (record r { timestamps = keep_if (is_recent r.window_ms now') r.timestamps ++ now' ∷ [] })
granted-Admits now now' gs r a h room = record {
  agree = λ later k.
      keep_if-append (is_recent r.window_ms later) _ (now' ∷ [])
      ∙ ap (λ xs. xs ++ keep_if (is_recent r.window_ms later) (now' ∷ []))
          (filtered-agree now now' later gs r a h k)
      ∙ sym (keep_if-append (is_recent r.window_ms later) gs (now' ∷ []));
  bounded = λ t.
      rw
        (
          keep_if-append (in_window r.window_ms t) gs (now' ∷ []),
          length-append (keep_if (in_window r.window_ms t) gs)
              (keep_if (in_window r.window_ms t) (now' ∷ [])),
        )
        (window-granted now now' t gs r a h room);
}

-- The state that `tryAcquire` leaves, as far as the window goes.
try_acquire-window_ms : (now : ℕ) (r : RateLimiter) → (try_acquire now r).0.window_ms ≡ r.window_ms
unfolding try_acquire
try_acquire-window_ms now r = ground arith

try_acquire-max_captures :
    (now : ℕ) (r : RateLimiter) → (try_acquire now r).0.max_captures ≡ r.max_captures
unfolding try_acquire
try_acquire-max_captures now r = ground arith

abbrev granted_now : ℕ → Bool → List ℕ
granted_now now true = now ∷ []
granted_now now false = []

try_acquire-Admits :
    (now now' : ℕ) (gs : List ℕ) (r : RateLimiter)
    → Admits now gs r
    → now ≤ now'
    → Admits now' (gs ++ granted_now now' (try_acquire now' r).1) (try_acquire now' r).0
unfolding try_acquire
try_acquire-Admits now now' gs r a h =
    let recent = keep_if (is_recent r.window_ms now') r.timestamps in
    elim (Bool-cases (ltb (length recent) r.max_captures)) [
      | inl e ↦ rw e (granted-Admits now now' gs r a h (ltb→lt _ _ e))
      | inr e ↦
          rw (e, append-nil gs)
            (record {
              agree = λ later k. filtered-agree now now' later gs r a h k;
              bounded = a.bounded;
            })
    ]

grants-split :
    (now : ℕ) (nows : List ℕ) (r : RateLimiter)
    → grants (now ∷ nows) r
      ≡ granted_now now (try_acquire now r).1 ++ grants nows (try_acquire now r).0
unfolding grants
grants-split now nows r = elim (Bool-cases (try_acquire now r).1) [
  | inl e ↦ rw e refl
  | inr e ↦ rw e refl
]

grants-bounded :
    (now : ℕ) (nows gs : List ℕ) (r : RateLimiter) (t : ℕ)
    → Admits now gs r
    → Ascending now nows
    → length (keep_if (in_window r.window_ms t) (gs ++ grants nows r)) ≤ r.max_captures
grants-bounded now [] gs r t a up = unfold grants in rw (append-nil gs) (a.bounded t)
grants-bounded now (now' ∷ nows) gs r t a (h, up) =
    let r' = (try_acquire now' r).0 in
    let gs' = gs ++ granted_now now' (try_acquire now' r).1 in
    let ih = grants-bounded now' nows gs' r' t (try_acquire-Admits now now' gs r a h) up in
    rw
      (
        grants-split now' nows r,
        sym (append_assoc gs (granted_now now' (try_acquire now' r).1) (grants nows r')),
      )
      (subst₂ (λ w m. length (keep_if (in_window w t) (gs' ++ grants nows r')) ≤ m)
        (try_acquire-window_ms now' r) (try_acquire-max_captures now' r) ih)

-- From a new limiter, whatever the times of the calls as long as the clock does not go back: of the
-- captures that `tryAcquire` admits, at most `maxCaptures` lie in any window of `windowMs`.
pub grants-limit :
    (max_captures window_ms start : ℕ) (nows : List ℕ) (t : ℕ)
    → Ascending start nows
    → length (
        keep_if
          (in_window window_ms t)
          (grants nows (new_rate_limiter (some max_captures) (some window_ms))))
      ≤ max_captures
unfolding new_rate_limiter
grants-limit m w start nows t up =
    grants-bounded start nows [] (new_rate_limiter (some m) (some w)) t
      (record { agree = λ later k. refl; bounded = λ t'. omega arith }) up
