-- ===== src/Thread/Wake.antt =====
-- No wake-up is lost, unless a thread ends in the ming environment.
use ming.Base.{
  arith, sym, subst, ◌∙◌, inr, inl, Bool-cases, ◌⊎◌, ◌==◌, update, false, true, ◌||◌, ◌≡◌, ℕ, Bool,
}
use ming.Thread.{awaits_resume, at, Threads, Place, leaving, pausing, collecting}
use ming.Thread.Cases.{all_paused}
use ming.Thread.Runs.{if_true, if_false}

-- A thread in or behind `m_thread_pause_all`.
abbrev pub stops : Place → Bool
stops p = at p pausing || at p collecting

-- Who waits for something that is the case has a signal, or a thread is about to give it.
pub record Woken (s : Threads) : Type 0 where
  pub flagged : (t : ℕ) → stops (s.place t) ≡ true → s.thread_pause_flag ≡ true
  pub alone : (t u : ℕ) → stops (s.place t) ≡ true → stops (s.place u) ≡ true → t ≡ u
  pub resume_signal :
      (t : ℕ)
      → awaits_resume (s.place t) ≡ true
      → s.thread_pause_flag ≡ false
      → s.signalled t ≡ true
  pub pause_signal :
      (t : ℕ)
      → at (s.place t) pausing ≡ true
      → all_paused s ≡ true
      → (s.signalled t ≡ true) ⊎ ((u : ℕ) × (at (s.place u) leaving ≡ true))

abbrev pub Alerted : Threads → ℕ → Type 0
Alerted s t = (s.signalled t ≡ true) ⊎ ((u : ℕ) × (at (s.place u) leaving ≡ true))

-- The place of a thread after the thread `t` has gone to `p`.
pub same_place :
    (f : Place → Bool) (g : ℕ → Place) (t : ℕ) (p : Place) (v : ℕ)
    → (v == t) ≡ true
    → f (update g t p v) ≡ true
    → f p ≡ true
same_place f g t p v e h = subst (λ q. f q ≡ true) (if_true (v == t) p (g v) e) h

pub other_place :
    (f : Place → Bool) (g : ℕ → Place) (t : ℕ) (p : Place) (v : ℕ)
    → (v == t) ≡ false
    → f (update g t p v) ≡ true
    → f (g v) ≡ true
other_place f g t p v e h = subst (λ q. f q ≡ true) (if_false (v == t) p (g v) e) h

pub same_thread : (v t : ℕ) → (v == t) ≡ true → v ≡ t
same_thread v t e = ground arith

pub clash : (b : Bool) → b ≡ true → b ≡ false → ⊥
clash true x y = absurd (ground arith)
clash false x y = absurd (ground arith)

-- A step that takes the thread `t` to the place `p`, leaves the flag and takes no signal from the
-- other threads.
pub calm :
    (s s' : Threads) (t : ℕ) (p : Place)
    → Woken s
    → (stops p ≡ true → stops (s.place t) ≡ true)
    → s'.thread_pause_flag ≡ s.thread_pause_flag
    → s'.place ≡ update s.place t p
    → ((u : ℕ) → (u == t) ≡ false → s.signalled u ≡ true → s'.signalled u ≡ true)
    → (awaits_resume p ≡ true → s.thread_pause_flag ≡ true)
    → (at p pausing ≡ true → all_paused s' ≡ false)
    → ((u : ℕ)
        → (u == t) ≡ false
        → at (s.place u) pausing ≡ true
        → all_paused s' ≡ true
        → Alerted s' u)
    → Woken s'
calm s s' t p h k f e g r w a = record {
  flagged = λ v c. f ∙ h.flagged v (before v (subst (λ x. stops (x v) ≡ true) e c));
  alone = λ v u c d.
      h.alone v u (before v (subst (λ x. stops (x v) ≡ true) e c))
        (before u (subst (λ x. stops (x u) ≡ true) e d));
  resume_signal = λ v c d. resumable v (subst (λ x. awaits_resume (x v) ≡ true) e c) (sym f ∙ d);
  pause_signal = λ v c d. alerted v (subst (λ x. at (x v) pausing ≡ true) e c) d;
}
  where
    before : (v : ℕ) → stops (update s.place t p v) ≡ true → stops (s.place v) ≡ true
    before v c = elim (Bool-cases (v == t)) [
      | inl same ↦
          subst (λ x. stops (s.place x) ≡ true) (sym (same_thread v t same))
            (k (same_place (λ q. stops q) s.place t p v same c))
      | inr other ↦ other_place (λ q. stops q) s.place t p v other c
    ]

    resumable :
        (v : ℕ)
        → awaits_resume (update s.place t p v) ≡ true
        → s.thread_pause_flag ≡ false
        → s'.signalled v ≡ true
    resumable v c d = elim (Bool-cases (v == t)) [
      | inl same ↦
          absurd (ground (arith, d, r (same_place (λ q. awaits_resume q) s.place t p v same c)))
      | inr other ↦
          g v other (h.resume_signal v (other_place (λ q. awaits_resume q) s.place t p v other c) d)
    ]

    alerted :
        (v : ℕ) → at (update s.place t p v) pausing ≡ true → all_paused s' ≡ true → Alerted s' v
    alerted v c d = elim (Bool-cases (v == t)) [
      | inl same ↦
          absurd (clash (all_paused s') d (w (same_place (λ q. at q pausing) s.place t p v same c)))
      | inr other ↦ a v other (other_place (λ q. at q pausing) s.place t p v other c) d
    ]

-- The other threads stay alerted if all were paused before and `t` is not in `m_thread_leave`.
pub still :
    (s s' : Threads) (t : ℕ) (p : Place)
    → Woken s
    → at (s.place t) leaving ≡ false
    → s'.place ≡ update s.place t p
    → ((u : ℕ) → (u == t) ≡ false → s.signalled u ≡ true → s'.signalled u ≡ true)
    → (all_paused s' ≡ true → all_paused s ≡ true)
    → (u : ℕ) → (u == t) ≡ false
    → at (s.place u) pausing ≡ true
    → all_paused s' ≡ true
    → Alerted s' u
still s s' t p h l e g a u o c d = elim (h.pause_signal u c (a d)) [
  | inl x ↦ inl (g u o x)
  | inr (v, y) ↦ inr (v, subst (λ x. at (x v) leaving ≡ true) (sym e) (stays v y))
]
  where
    stays : (v : ℕ) → at (s.place v) leaving ≡ true → at (update s.place t p v) leaving ≡ true
    stays v y = elim (Bool-cases (v == t)) [
      | inl same ↦
          let z : at (s.place t) leaving ≡ true =
            subst (λ x. at (s.place x) leaving ≡ true) (same_thread v t same) y in
          absurd (ground (arith, z, l))
      | inr other ↦ ground (arith, other, y)
    ]

-- No thread is in `m_thread_pause_all`, and `t` enters it.
pub starts :
    (s s' : Threads) (t : ℕ) (p : Place)
    → Woken s
    → s.thread_pause_flag ≡ false
    → awaits_resume p ≡ false
    → s'.thread_pause_flag ≡ true
    → s'.place ≡ update s.place t p
    → (at p pausing ≡ true → all_paused s' ≡ false)
    → Woken s'
starts s s' t p h n q f e w = record {
  flagged = λ v c. f;
  alone = λ v u c d.
      self v (subst (λ x. stops (x v) ≡ true) e c)
      ∙ sym (self u (subst (λ x. stops (x u) ≡ true) e d));
  resume_signal = λ v c d. absurd (clash s'.thread_pause_flag f d);
  pause_signal = λ v c d.
      absurd (clash (all_paused s') d (w (pauses v (subst (λ x. at (x v) pausing ≡ true) e c))));
}
  where
    self : (v : ℕ) → stops (update s.place t p v) ≡ true → v ≡ t
    self v c = elim (Bool-cases (v == t)) [
      | inl same ↦ same_thread v t same
      | inr other ↦ absurd (
          clash s.thread_pause_flag (h.flagged v (other_place (λ x. stops x) s.place t p v other c))
            n)
    ]

    pauses : (v : ℕ) → at (update s.place t p v) pausing ≡ true → at p pausing ≡ true
    pauses v c = elim (Bool-cases (v == t)) [
      | inl same ↦ same_place (λ x. at x pausing) s.place t p v same c
      | inr other ↦
          let z : at (s.place v) pausing ≡ true =
            other_place (λ x. at x pausing) s.place t p v other c in
          absurd (clash s.thread_pause_flag (h.flagged v (ground (arith, z))) n)
    ]
