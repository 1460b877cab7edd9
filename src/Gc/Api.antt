-- ===== src/Gc/Api.antt =====
-- src/m_gc_obj.c, src/m_gc.c and include/m_gc.h: the entry points. What `m_gc_lock` keeps apart is
-- modelled in Thread.
pub mod Grow
pub mod Alloc
use ming.Base.{update, leb, [], Bool, assert, pure, modify, Option, ◌>>◌, some, ◌>>=◌, Run, ℕ}
use ming.Gc.Obj.{Gc, Descr, get_state}
use ming.Gc.Startup.{gc_obj_startup}
use ming.Gc.Collect.{gc_alloc_obj, gc_collect_objs, gc_do_collect}

unfoldable pub m_gc_get_nb_level : ℕ → Run Gc ℕ
m_gc_get_nb_level self s = some ((s.nb_stacks self).top, s)

-- The function has no `return`; its value is not modelled.
unfoldable pub m_gc_set_nb_level : ℕ → ℕ → Run Gc (Unit {0})
unfolding get_state
m_gc_set_nb_level self level = do
  s ← get_state
  let nb = s.nb_stacks self
  assert (leb level nb.top)
  modify (λ u. record u { nb_stacks = update u.nb_stacks self (record nb { top = level }) })

module _ (descrs : ℕ → Descr) (scan : ℕ → ℕ → Run Gc (Unit {0})) where
  unfoldable pub m_gc_alloc_obj : Run Gc (Unit {0}) → ℕ → ℕ → Bool → ℕ → ℕ → Run Gc (ℕ × ℕ)
  unfolding gc_alloc_obj
  m_gc_alloc_obj wait fuel fresh room self type =
      gc_alloc_obj descrs scan wait fuel fresh room self type

  unfoldable pub m_gc_run : Run Gc (Unit {0}) → ℕ → ℕ → ℕ → Run Gc (Unit {0})
  unfolding gc_collect_objs
  m_gc_run wait fuel self flags = gc_collect_objs descrs scan wait fuel self flags >> pure tt

  -- `M_GC_COLLECT_FL_CLEAR` is 2. The gray stack is freed afterwards.
  unfoldable pub gc_obj_shutdown : ℕ → Run Gc (Unit {0})
  unfolding gc_do_collect
  gc_obj_shutdown fuel = gc_do_collect descrs scan fuel 2 >> pure tt

  -- `gc_root_hash_startup` is in Gc.Root.
  unfoldable pub m_gc_startup : Option ℕ → Option ℕ → Option ℕ → Bool → Run Gc (Unit {0})
  unfolding gc_obj_startup
  m_gc_startup begin_size pool_size gray_size room = do
    modify (λ s. record s { allocated_size = 0; last_allocated_size = 0 })
    gc_obj_startup descrs begin_size pool_size gray_size room
    modify (λ s. record s { roots = [] })

  unfoldable pub m_gc_shutdown : ℕ → Run Gc (Unit {0})
  unfolding gc_obj_shutdown
  m_gc_shutdown fuel = do gc_obj_shutdown fuel; modify (λ s. record s { roots = [] })
