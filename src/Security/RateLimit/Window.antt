-- ===== src/Security/RateLimit/Window.antt =====
-- The sliding window that the limiter enforces.
use mathlib.Core.List.{append-nil, append_assoc}
use ops_incident_core.Prelude.{
  ℕ, ◌+◌, ◌≤◌, ◌<◌, ◌≡◌, refl, sym, ◌∙◌, Bool, ◌&&◌, List, [], ◌∷◌, ◌++◌, arith, leb, ltb, length,
  length-append, All, All-append, select, Bool-cases, inl, inr, leb→lt, subst,
}
use ops_incident_core.Security.RateLimit.{expire, check, run}

-- A request made at `s` still counts at time `now`.
abbrev alive : ℕ → ℕ → ℕ → Bool
alive window now s = ltb now (s + window)

-- The request at `s` lies in the window that ends at `t`.
abbrev pub in_window : ℕ → ℕ → ℕ → Bool
in_window window t s = leb s t && ltb t (s + window)

-- Each time is at least the one before, the first at least `last`.
abbrev pub IsAscending : ℕ → List ℕ → Type 0
IsAscending last [] = Unit
IsAscending last (t ∷ ts) = (last ≤ t) × IsAscending t ts

select-append : (p : ℕ → Bool) (xs ys : List ℕ) → select p (xs ++ ys) ≡ select p xs ++ select p ys
select-append p [] ys = refl
select-append p (x ∷ xs) ys = ground (arith, select-append p xs ys)

expire_twice :
    (window now later : ℕ) (b : List ℕ)
    → now ≤ later
    → expire later window (expire now window b) ≡ expire later window b
unfolding expire
expire_twice window now later [] h = refl
expire_twice window now later (t ∷ ts) h = ground (arith, expire_twice window now later ts h)

expire_snoc :
    (window now n : ℕ) (b : List ℕ)
    → All (λ s. s ≤ n) b
    → expire now window (b ++ n ∷ []) ≡ expire now window b ++ expire now window (n ∷ [])
unfolding expire
expire_snoc window now n [] h = refl
expire_snoc window now n (t ∷ ts) h = ground (arith, expire_snoc window now n ts h.1)

expire_one : (window now n : ℕ) → select (alive window now) (n ∷ []) ≡ expire now window (n ∷ [])
unfolding expire
expire_one window now n = ground arith

select-All :
    (p : ℕ → Bool) (n : ℕ) (h : List ℕ) → All (λ s. s ≤ n) h → All (λ s. s ≤ n) (select p h)
select-All p n [] a = tt
select-All p n (s ∷ h) a = ground (arith, select-All p n h a.1)

-- What lies in a window that ends no earlier than `now` is alive at `now`.
in_window-le-alive :
    (window now t : ℕ) (h : List ℕ)
    → now ≤ t
    → length (select (in_window window t) h) ≤ length (select (alive window now) h)
in_window-le-alive window now t [] e = omega arith
in_window-le-alive window now t (s ∷ h) e = ground (arith, in_window-le-alive window now t h e)

All-le_later : (a b : ℕ) (h : List ℕ) → a ≤ b → All (λ s. s ≤ a) h → All (λ s. s ≤ b) h
All-le_later a b [] e v = tt
All-le_later a b (s ∷ h) e v = (omega arith, All-le_later a b h e v.1)

start : (window now : ℕ) → [] ≡ expire now window []
unfolding expire
start window now = refl

module _ (limit window : ℕ) where
  -- The bucket keeps what is still alive of the history of admitted requests.
  record Tracks (last : ℕ) (h bucket : List ℕ) : Type 0 where
    past : All (λ s. s ≤ last) h
    live : (now : ℕ) → last ≤ now → select (alive window now) h ≡ expire now window bucket
    bounded : (t : ℕ) → length (select (in_window window t) h) ≤ limit

  refused :
      (last now : ℕ) (h bucket : List ℕ)
      → Tracks last h bucket
      → last ≤ now
      → Tracks now h (expire now window bucket)
  refused last now h bucket v e = record {
    past = All-le_later last now h e v.past;
    live = λ later f. v.live later (omega arith) ∙ sym (expire_twice window now later bucket f);
    bounded = v.bounded;
  }

  admitted :
      (last now : ℕ) (h bucket : List ℕ)
      → Tracks last h bucket
      → last ≤ now
      → length (expire now window bucket) < limit
      → Tracks now (h ++ now ∷ []) (expire now window bucket ++ now ∷ [])
  admitted last now h bucket v e room =
      let past' = All-le_later last now h e v.past in
      let kept = select-All (alive window now) now h past' in
      record {
        past = All-append (λ s. s ≤ now) h (now ∷ []) past' (omega arith, tt);
        live = λ later f. cc (
          select-append (alive window later) h (now ∷ []),
          v.live later (omega arith),
          expire_twice window now later bucket f,
          expire_snoc window later now (expire now window bucket)
              (subst (All (λ s. s ≤ now)) (v.live now e) kept),
          expire_one window later now,
        );
        bounded = λ t. ground (
          arith,
          select-append (in_window window t) h (now ∷ []),
          length-append (select (in_window window t) h) (select (in_window window t) (now ∷ [])),
          in_window-le-alive window now t h,
          v.live now e,
          v.bounded t,
        );
      }

  run_bounded :
      (times : List ℕ) (last : ℕ) (h bucket : List ℕ)
      → Tracks last h bucket
      → IsAscending last times
      → (t : ℕ)
      → length (select (in_window window t) (h ++ (run limit window times bucket).1)) ≤ limit
  unfolding run
  run_bounded [] last h bucket v a t = rw append-nil (v.bounded t)
  run_bounded (now ∷ times) last h bucket v a t =
      let live = expire now window bucket in
      elim (Bool-cases (leb limit (length live))) [
        | inl full ↦
            rw (full, check) (run_bounded times now h live (refused last now h bucket v a.0) a.1 t)
        | inr room ↦
            rw (room, check)
              (rw append_assoc at (
                run_bounded times now (h ++ now ∷ []) (live ++ now ∷ [])
                  (admitted last now h bucket v a.0 (leb→lt _ _ room)) a.1 t))
      ]

-- No window of the configured length, wherever it ends, holds more admitted requests than the
-- limit, for any sequence of requests in the order of time.
pub run_window_bound :
    (limit window : ℕ) (times : List ℕ)
    → IsAscending 0 times
    → (t : ℕ) → length (select (in_window window t) (run limit window times []).1) ≤ limit
run_window_bound limit window times a t =
    run_bounded limit window times 0 [] []
      (record { past = tt; live = λ now e. start window now; bounded = λ t. omega arith }) a t
