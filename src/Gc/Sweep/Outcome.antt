-- ===== src/Gc/Sweep/Outcome.antt =====
-- The sweep of a pool: the marks, the free cells, the finalised objects, and where the pool goes.
use ming.Base.{
  ◌^◌, true, false, refl, not, ◌==◌, length, ◌∙◌, ◌&&◌, [], subst, ◌∷◌, some, ◌++◌, ◌/◌, Returns,
  arith, ◌*◌, ◌≡◌, ◌<◌, leb, if◌then◌else◌, Bool, List, ℕ,
}
use ming.Gc.Sweep.{sweep_words, Swept, finish_pool, gc_sweep_pool}
use ming.Gc.Sweep.Word.{shrink, swept_mark, push_all}
use ming.Gc.Sweep.Pools.{sweep_words-swept, black_words, dead_cells, swept_bitmap, NoGray}
use ming.Gc.Sweep.Marks.{swept_bitmap-read}
use ming.Gc.Obj.{put_stub, Gc, Descr, gc_free_pool}
use ming.Gc.Bitmap.{gc_obj_get_bitmap}

-- A pool after the sweep; `cells` are the addresses of its white objects.
pub record PoolSwept (cells : List ℕ) (black : Bool) (words size p type : ℕ) (s s' : Gc)
    : Type 0 where
  pub marks :
      (id : ℕ)
      → id < 16 * words
      → gc_obj_get_bitmap (s'.pools p).bitmap id
        ≡ swept_mark (gc_obj_get_bitmap (s.pools p).bitmap id)
  pub pushed : (s'.pools p).free_cells ≡ push_all cells (s.pools p).free_cells
  pub finalised : s'.finals ≡ s.finals ++ cells
  pub subtracted : s'.allocated_size ≡ shrink s.allocated_size size cells
  pub other_pools : (q : ℕ) → (q == p) ≡ false → s'.pools q ≡ s.pools q
  pub other_stubs : (t : ℕ) → (t == type) ≡ false → s'.stubs t ≡ s.stubs t
  pub same_size : (s'.stubs type).bitmap_size ≡ (s.stubs type).bitmap_size
  pub given_back : s'.unmapped ≡ (if black then s.unmapped else s.unmapped ++ p ∷ [])
  pub full : (s'.stubs type).full_pools ≡ (
      if black && length (s'.pools p).free_cells == 0
      then p ∷ (s.stubs type).full_pools
      else (s.stubs type).full_pools)
  pub usable : (s'.stubs type).usable_pools ≡ (
      if black && not (length (s'.pools p).free_cells == 0)
      then p ∷ (s.stubs type).usable_pools
      else (s.stubs type).usable_pools)

finish_pool-PoolSwept :
    (cells : List ℕ) (words size type p word allocated : ℕ) (free finals : List ℕ) (black : Bool)
    (s : Gc) (bmp : ℕ → ℕ)
    → ((i : ℕ) → bmp i ≡ swept_bitmap words 0 (s.pools p).bitmap i)
    → free ≡ push_all cells (s.pools p).free_cells
    → finals ≡ s.finals ++ cells
    → allocated ≡ shrink s.allocated_size size cells
    → Returns
        (finish_pool type p bmp
          (record {
            word = word;
            free = free;
            finals = finals;
            allocated = allocated;
            have_black = black;
          })
          s)
        (λ _ s'. PoolSwept cells black words size p type s s')
unfolding finish_pool gc_free_pool put_stub
finish_pool-PoolSwept cells words size type p word allocated free finals false s bmp r f n a = (
  tt,
  _,
  refl,
  record {
    marks = λ id l. ground (arith, swept_bitmap-read words (s.pools p).bitmap bmp id r l);
    pushed = ground (arith, f);
    finalised = n;
    subtracted = a;
    other_pools = λ q n. ground (arith, n);
    other_stubs = λ t n. refl;
    same_size = refl;
    given_back = refl;
    full = refl;
    usable = refl;
  },
)
finish_pool-PoolSwept cells words size type p word allocated [] finals true s bmp r f n a = (
  tt,
  _,
  refl,
  record {
    marks = λ id l. ground (arith, swept_bitmap-read words (s.pools p).bitmap bmp id r l);
    pushed = ground (arith, f);
    finalised = n;
    subtracted = a;
    other_pools = λ q n. ground (arith, n);
    other_stubs = λ t n. ground (arith, n);
    same_size = ground arith;
    given_back = refl;
    full = ground arith;
    usable = ground arith;
  },
)
finish_pool-PoolSwept cells words size type p word allocated (x ∷ xs) finals true s bmp r f n a = (
  tt,
  _,
  refl,
  record {
    marks = λ id l. ground (arith, swept_bitmap-read words (s.pools p).bitmap bmp id r l);
    pushed = ground (arith, f);
    finalised = n;
    subtracted = a;
    other_pools = λ q n. ground (arith, n);
    other_stubs = λ t n. ground (arith, n);
    same_size = ground arith;
    given_back = refl;
    full = ground arith;
    usable = ground arith;
  },
)

gc_sweep_pool-finish_pool :
    (descr : Descr) (type p : ℕ) (s : Gc) (bmp : ℕ → ℕ) (w : Swept)
    → sweep_words
        (s.pools p).begin
        descr.size
        ((s.stubs type).bitmap_size / 4)
        0
        (s.pools p).bitmap
        (record {
          word = 0;
          free = (s.pools p).free_cells;
          finals = s.finals;
          allocated = s.allocated_size;
          have_black = false;
        })
      ≡ some (bmp, w)
    → gc_sweep_pool descr type p s ≡ finish_pool type p bmp w s
unfolding gc_sweep_pool
gc_sweep_pool-finish_pool descr type p s bmp w e = ground (arith, e)

from_zero : (i a b : ℕ) → (if leb 0 i then a else b) ≡ a
from_zero i a b = ground arith

-- The sweep of a pool whose marks show no gray object, and whose bitmap is for cells of less than
-- `2 ^ 32` bytes together, ends without a failed assertion. It frees the
-- white objects, in the order of their addresses, makes the black ones white, and puts the pool
-- back on the list that its free cells ask for, or unmaps it if it had no black object.
pub sweep_pool-PoolSwept :
    (descr : Descr) (type p : ℕ) (s : Gc)
    → NoGray (s.pools p).bitmap
    → (s.stubs type).bitmap_size / 4 * 16 * descr.size < 2 ^ 32
    → Returns (gc_sweep_pool descr type p s) (λ _ s'.
      let words = (s.stubs type).bitmap_size / 4 in
      PoolSwept
        (dead_cells (s.pools p).begin descr.size words 0 (s.pools p).bitmap)
        (black_words words 0 (s.pools p).bitmap)
        words
        descr.size
        p
        type
        s
        s')
unfolding gc_sweep_pool gc_free_pool put_stub
sweep_pool-PoolSwept descr type p s g below =
    let pool = s.pools p in
    let words = (s.stubs type).bitmap_size / 4 in
    let start : Swept = record {
      word = 0;
      free = pool.free_cells;
      finals = s.finals;
      allocated = s.allocated_size;
      have_black = false;
    } in
    let (bmp, w, run, all, read) =
      sweep_words-swept pool.begin descr.size words 0 pool.bitmap pool.bitmap start g
        (omega (arith, below)) (λ i l. refl) in
    let dead = dead_cells pool.begin descr.size words 0 pool.bitmap in
    let Q : Bool → Type 0 = λ b.
      Returns (finish_pool type p bmp w s)
        (λ _ s'. PoolSwept dead b words descr.size p type s s') in
    let done : Q (black_words words 0 pool.bitmap) = subst Q all.seen_black (
      finish_pool-PoolSwept dead words descr.size type p w.word w.allocated w.free w.finals
        w.have_black s bmp (λ i. read i ∙ from_zero i _ _) all.free_cells all.final_calls
        all.new_size) in
    let (_, s', e, h) = done in (tt, s', gc_sweep_pool-finish_pool descr type p s bmp w run ∙ e, h)
