-- ===== src/Thread/Keeps.antt =====
-- Each step of a thread keeps the list, the flags and the counters consistent, and fails no
-- assertion.
use ming.Thread.Step.{
  exit, check_wake, check, register, enter_wake, enter, signal, leave, resume, pause_wake, pause,
  Event, may, perform,
}
use mathlib.Core.List.{append-nil}
use ming.Base.{
  ◌||◌, Bool, if◌then◌else◌, inr, update_at, elem-append, inl, ◌++◌, List, Bool-cases, ◌+◌, ◌==◌,
  ◌∷◌, sym, length-append, refl, ◌^◌, ◌%◌, [], arith, ap, Distinct-insert, ◌∙◌, Returns, false,
  true, ◌≡◌, elem, ℕ,
}
use ming.Thread.{
  without, decr, at, Threads, absent, outside, entering, registering, running, leaving, checking,
  pausing, collecting,
}
use ming.Thread.Count.{
  elem-without_other, elem-without, paused_count-without, paused_count, paused_count-add,
  paused_count-update_other, length-without, Distinct-without,
}
use ming.Thread.Cases.{data_added, gone, perform-cases, Entered, registered, Outcome}
use ming.Thread.Invariant.{
  out_of, entering_cases, Consistent-pauses, Consistent-resumes, fits, Consistent-goes, fit_at,
  Consistent,
}

same_thread : (u t : ℕ) → (u == t) ≡ true → u ≡ t
same_thread u t h = ground arith

-- The three steps that change the list or the data.
elem-add_other : (u t : ℕ) (ts : List ℕ) → (u == t) ≡ false → elem u (ts ++ t ∷ []) ≡ elem u ts
elem-add_other u t ts n = ground (arith, elem-append u ts (t ∷ []))

elem-add : (t : ℕ) (ts : List ℕ) → elem t (ts ++ t ∷ []) ≡ true
elem-add t ts = ground (arith, elem-append t ts (t ∷ []))

register-Consistent :
    (s : Threads) (t : ℕ)
    → Consistent s
    → at (s.place t) registering ≡ true
    → Consistent (registered t s)
register-Consistent s t c h =
    let f = fit_at s t registering c h in
    let new : elem t s.thread_list ≡ false = ground arith in
    let known : s.has_data t ≡ true = ground arith in
    let active : s.paused t ≡ false = ground arith in
    record {
      distinct =
          Distinct-insert t s.thread_list [] (rw (append-nil s.thread_list) c.distinct)
            (rw (append-nil s.thread_list) new);
      number = omega (arith, c.number, length-append s.thread_list (t ∷ []));
      paused_number =
          c.paused_number
          ∙ ap (λ x. x % 2 ^ 32) (sym (paused_count-add s.paused s.thread_list t active));
      fitting = λ u. elim (Bool-cases (u == t)) [
        | inl same ↦
            rw
              (
                same_thread u t same,
                update_at s.place t running,
                elem-add t s.thread_list,
                known,
                active,
              )
              refl
        | inr other ↦ rw (other, elem-add_other u t s.thread_list other) (c.fitting u)
      ];
    }

exit-Consistent :
    (s : Threads) (t : ℕ) → Consistent s → elem t s.thread_list ≡ true → Consistent (gone t s)
exit-Consistent s t c h = record {
  distinct = Distinct-without s.thread_list t c.distinct;
  number = omega (arith, c.number, length-without s.thread_list t h);
  paused_number =
      fewer (s.paused t) s.paused_thread_num (paused_count s.paused (without t s.thread_list))
        (paused_count s.paused s.thread_list) c.paused_number
        (paused_count-without s.paused s.thread_list t h);
  fitting = λ u. elim (Bool-cases (u == t)) [
    | inl same ↦
        rw
          (
            same_thread u t same,
            update_at s.place t absent,
            update_at s.has_data t false,
            elem-without s.thread_list t c.distinct,
          )
          refl
    | inr other ↦ rw (other, elem-without_other s.thread_list t u other) (c.fitting u)
  ];
}
  where
    fewer :
        (p : Bool) (n a b : ℕ)
        → n ≡ b % 2 ^ 32
        → a + (if p then 1 else 0) ≡ b
        → (if p then decr n else n) ≡ a % 2 ^ 32
    fewer true n a b e f = omega (arith, e, f)
    fewer false n a b e f = omega (arith, e, f)

enter_new-Consistent :
    (s : Threads) (t : ℕ)
    → Consistent s
    → elem t s.thread_list ≡ false
    → Consistent (data_added t s)
enter_new-Consistent s t c h = record {
  distinct = c.distinct;
  number = c.number;
  paused_number =
      c.paused_number
      ∙ ap (λ x. x % 2 ^ 32) (sym (paused_count-update_other s.paused s.thread_list t false h));
  fitting = λ u. elim (Bool-cases (u == t)) [
    | inl same ↦
        rw
          (
            same_thread u t same,
            update_at s.place t registering,
            update_at s.has_data t true,
            update_at s.paused t false,
            h,
          )
          refl
    | inr other ↦ rw other (c.fitting u)
  ];
}

listed :
    (s : Threads) (t : ℕ)
    → Consistent s
    → at (s.place t) running || at (s.place t) outside ≡ true
    → elem t s.thread_list ≡ true
listed s t c h = elim (Bool-cases (at (s.place t) running)) [
  | inl a ↦ let f = fit_at s t running c a in ground arith
  | inr o ↦ let f = fit_at s t outside c (ground arith) in ground arith
]

-- Each outcome of a step in a consistent state is consistent.
Entered-Consistent :
    (s : Threads) (t : ℕ)
    → Consistent s
    → fits entering (elem t s.thread_list) (s.has_data t) (s.paused t) ≡ true
    → Entered Consistent t s
Entered-Consistent s t c f =
    let (known, new) = entering_cases (elem t s.thread_list) (s.has_data t) (s.paused t) f in
    (
      λ _. Consistent-goes s _ t entering c f refl refl refl refl refl refl,
      λ _ d. Consistent-resumes s _ t c (known d).1 refl refl refl refl refl refl,
      λ _ d. enter_new-Consistent s t c (new d),
    )

pub Outcome-Consistent :
    (e : Event) (s : Threads) → Consistent s → may e s ≡ true → Outcome Consistent e s
unfolding may
Outcome-Consistent (pause t) s c m =
    let f = fit_at s t running c (ground arith) in
    (
      λ _. Consistent-pauses s _ t collecting c f refl refl refl refl refl refl refl,
      λ _. Consistent-pauses s _ t pausing c f refl refl refl refl refl refl refl,
    )
Outcome-Consistent (pause_wake t) s c m =
    let f = fit_at s t pausing c (ground arith) in
    (
      λ _. Consistent-goes s _ t collecting c f refl refl refl refl refl refl,
      λ _. Consistent-goes s _ t pausing c f refl refl refl refl refl refl,
    )
Outcome-Consistent (resume t) s c m =
    Consistent-resumes s _ t c (fit_at s t collecting c m) refl refl refl refl refl refl
Outcome-Consistent (leave t) s c m =
    Consistent-pauses s _ t leaving c (fit_at s t running c (ground arith)) refl refl refl refl refl
      refl refl
Outcome-Consistent (signal t) s c m =
    Consistent-goes s _ t outside c (fit_at s t leaving c m) refl refl refl refl refl refl
Outcome-Consistent (enter t) s c m = Entered-Consistent s t c (out_of s t c (ground arith))
Outcome-Consistent (enter_wake t) s c m =
    Entered-Consistent s t c (fit_at s t entering c (ground arith))
Outcome-Consistent (register t) s c m = register-Consistent s t c (ground arith)
Outcome-Consistent (check t) s c m =
    let f = fit_at s t running c (ground arith) in
    (λ _. Consistent-pauses s _ t checking c f refl refl refl refl refl refl refl, λ _. c)
Outcome-Consistent (check_wake t) s c m =
    let f = fit_at s t checking c (ground arith) in
    (
      λ _. Consistent-goes s _ t checking c f refl refl refl refl refl refl,
      λ _. Consistent-resumes s _ t c f refl refl refl refl refl refl,
    )
Outcome-Consistent (exit t) s c m = exit-Consistent s t c (listed s t c (ground arith))

-- Each step that a thread may take in a consistent state returns, with no failed assertion, and the
-- state after it is consistent.
pub perform-Consistent :
    (e : Event) (s : Threads)
    → Consistent s
    → may e s ≡ true
    → Returns (perform e s) (λ _ s'. Consistent s')
perform-Consistent e s c m = perform-cases Consistent e s c m (Outcome-Consistent e s c m)
