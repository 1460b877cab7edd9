-- ===== src/Gc/Sweep/Word.antt =====
-- What the sweep does to the marks of one word.
use ming.Gc.Bitmap.{put_mark}
use ming.Gc.Obj.{mark_gray, mark_black, mark_white}
use mathlib.Core.List.{append-nil, append_assoc}
use native.Mathlib.Nat.{pow-suc}
use ming.Gc.Sweep.{Swept, sweep_word}
use ming.Base.{
  ap, ◌∙◌, sym, ◌⊎◌, inr, inl, Bool-cases, ◌&&◌, ◌-◌, refl, arith, zero, some, ◌||◌, ◌^◌, ◌!=◌, ◌≢◌,
  ◌+◌, ◌/◌, true, false, ◌==◌, ◌++◌, ◌%◌, ◌<◌, ◌∷◌, if◌then◌else◌, [], suc, Bool, ◌≡◌, List, ℕ,
}

-- The addresses of the white objects among `fuel` marks, the first at `ptr`.
unfoldable pub white_cells : ℕ → ℕ → ℕ → ℕ → List ℕ
white_cells zero size flags ptr = []
white_cells (suc fuel) size flags ptr =
    if flags % 4 == mark_white
    then ptr ∷ white_cells fuel size (flags / 4) (ptr + size)
    else white_cells fuel size (flags / 4) (ptr + size)

unfoldable pub any_black : ℕ → ℕ → Bool
any_black zero flags = false
any_black (suc fuel) flags = (flags % 4 == mark_black) || any_black fuel (flags / 4)

unfoldable pub no_gray : ℕ → ℕ → Bool
no_gray zero flags = true
no_gray (suc fuel) flags = (flags % 4 != mark_gray) && no_gray fuel (flags / 4)

-- The mark of an object after the sweep.
abbrev pub swept_mark : ℕ → ℕ
swept_mark m = if m == mark_black then mark_white else 0

-- The cells are pushed one by one.
abbrev pub push_all : List ℕ → List ℕ → List ℕ
push_all [] free = free
push_all (x ∷ xs) free = push_all xs (x ∷ free)

abbrev pub shrink : ℕ → ℕ → List ℕ → ℕ
shrink n size [] = n
shrink n size (x ∷ xs) = shrink ((n + 2 ^ 64 - size) % 2 ^ 64) size xs

-- The word when the marks from `k` on, `fuel` of them, are swept.
unfoldable pub swept_word : ℕ → ℕ → ℕ → ℕ → ℕ
swept_word zero flags k word = word
swept_word (suc fuel) flags k word =
    swept_word fuel (flags / 4) (k + 1)
      (if flags % 4 == 0 then word else put_mark k (swept_mark (flags % 4)) word)

abbrev pub swept : ℕ → ℕ → ℕ → ℕ → ℕ → Swept → Swept
swept fuel size flags ptr k w = record {
  word = swept_word fuel flags k w.word;
  free = push_all (white_cells fuel size flags ptr) w.free;
  finals = w.finals ++ white_cells fuel size flags ptr;
  allocated = shrink w.allocated size (white_cells fuel size flags ptr);
  have_black = w.have_black || any_black fuel flags;
}

-- Marks that are all 0.
pub white_cells_zero : (fuel size ptr : ℕ) → white_cells fuel size 0 ptr ≡ []
unfolding white_cells
white_cells_zero zero size ptr = refl
white_cells_zero (suc fuel) size ptr = white_cells_zero fuel size (ptr + size)

pub any_black_zero : (fuel : ℕ) → any_black fuel 0 ≡ false
unfolding any_black
any_black_zero zero = refl
any_black_zero (suc fuel) = any_black_zero fuel

pub swept_word_zero : (fuel k word : ℕ) → swept_word fuel 0 k word ≡ word
unfolding swept_word
swept_word_zero zero k word = refl
swept_word_zero (suc fuel) k word = swept_word_zero fuel (k + 1) word

swept_zero : (fuel size ptr k : ℕ) (w : Swept) → swept fuel size 0 ptr k w ≡ w
swept_zero fuel size ptr k w = ground (
  arith,
  swept_word_zero fuel k w.word,
  white_cells_zero fuel size ptr,
  any_black_zero fuel,
  append-nil w.finals,
)

-- One round.
abbrev step : ℕ → ℕ → ℕ → ℕ → Swept → Swept
step size mark ptr k w =
    if mark == mark_white
    then record w {
      word = put_mark k 0 w.word;
      free = ptr ∷ w.free;
      finals = w.finals ++ ptr ∷ [];
      allocated = (w.allocated + 2 ^ 64 - size) % 2 ^ 64;
    }
    else if mark == mark_black
    then record w { word = put_mark k mark_white w.word; have_black = true }
    else w

mark_cases : (m : ℕ) → m < 4 → m ≢ mark_gray → (m ≡ 0) ⊎ ((m ≡ mark_white) ⊎ (m ≡ mark_black))
mark_cases zero h n = inl refl
mark_cases (suc zero) h n = inr (inl refl)
mark_cases (suc (suc zero)) h n = absurd (n refl)
mark_cases (suc (suc (suc zero))) h n = inr (inr refl)
mark_cases (suc (suc (suc (suc m)))) h n = absurd (omega arith)

swept_round :
    (fuel size flags ptr k : ℕ) (w : Swept)
    → (flags % 4 ≢ mark_gray)
    → swept fuel size (flags / 4) (ptr + size) (k + 1) (step size (flags % 4) ptr k w)
      ≡ swept (suc fuel) size flags ptr k w
unfolding swept_word white_cells any_black
swept_round fuel size flags ptr k w n = elim (mark_cases (flags % 4) (omega arith) n) [
  | inl e ↦ simp e refl
  | inr (inl e) ↦ simp (e, append_assoc) refl
  | inr (inr e) ↦ simp e (ground arith)
]

-- What a round gives, by whether the rest of the word is 0.
sweep_word_last :
    (fuel size flags ptr k : ℕ) (w : Swept)
    → (flags % 4 == mark_gray) ≡ false
    → (flags / 4 == 0) ≡ true
    → sweep_word (suc fuel) size flags ptr k w ≡ some (step size (flags % 4) ptr k w)
unfolding sweep_word
sweep_word_last fuel size flags ptr k w g l = ground arith

sweep_word_more :
    (fuel size flags ptr k : ℕ) (w : Swept)
    → (flags % 4 == mark_gray) ≡ false
    → (flags / 4 == 0) ≡ false
    → sweep_word (suc fuel) size flags ptr k w
      ≡ sweep_word fuel size (flags / 4) (ptr + size) (k + 1) (step size (flags % 4) ptr k w)
unfolding sweep_word
sweep_word_more fuel size flags ptr k w g l = ground arith

swept_last :
    (fuel size flags ptr k : ℕ) (w : Swept)
    → (flags % 4 ≢ mark_gray)
    → flags / 4 ≡ 0
    → step size (flags % 4) ptr k w ≡ swept (suc fuel) size flags ptr k w
swept_last fuel size flags ptr k w n z =
    sym (swept_zero fuel size (ptr + size) (k + 1) (step size (flags % 4) ptr k w))
    ∙ ap (λ x. swept fuel size x (ptr + size) (k + 1) (step size (flags % 4) ptr k w)) (sym z)
    ∙ swept_round fuel size flags ptr k w n

digits_below : (fuel flags : ℕ) → flags < 4 ^ suc fuel → flags / 4 < 4 ^ fuel
digits_below fuel flags b = ground (arith, pow-suc 4 fuel)

enough : (fuel flags : ℕ) → flags < 4 ^ suc fuel → (flags / 4 == 0) ≡ false → 0 < fuel
enough zero flags b e = absurd (ground arith)
enough (suc fuel) flags b e = omega arith

-- The sweep of the marks of one word that has no gray object.
pub sweep_word-swept :
    (fuel size flags ptr k : ℕ) (w : Swept)
    → flags < 4 ^ fuel
    → 0 < fuel
    → no_gray fuel flags ≡ true
    → sweep_word fuel size flags ptr k w ≡ some (swept fuel size flags ptr k w)
unfolding no_gray
sweep_word-swept zero size flags ptr k w b f n = absurd (omega arith)
sweep_word-swept (suc fuel) size flags ptr k w b f n =
    let here : flags % 4 ≢ mark_gray = ground arith in
    let test : (flags % 4 == mark_gray) ≡ false = ground arith in
    let rest : no_gray fuel (flags / 4) ≡ true = ground arith in
    elim (Bool-cases (flags / 4 == 0)) [
      | inl last ↦
          sweep_word_last fuel size flags ptr k w test last
          ∙ ap some (swept_last fuel size flags ptr k w here (ground arith))
      | inr more ↦
          let w' = step size (flags % 4) ptr k w in
          sweep_word_more fuel size flags ptr k w test more
          ∙ sweep_word-swept fuel size (flags / 4) (ptr + size) (k + 1) w'
              (digits_below fuel flags b) (enough fuel flags b more) rest
          ∙ ap some (swept_round fuel size flags ptr k w here)
    ]
