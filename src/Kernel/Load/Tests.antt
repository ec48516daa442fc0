-- ===== src/Kernel/Load/Tests.antt =====
-- Examples for `env_init` of kern/env.c: a run that returns.
use buaa_os.Prelude.{◌≡◌, refl, Bool, true, false, [], ◌∷◌}
use buaa_os.Prelude.Outcome.{Outcome, done, fail, panic, Returns, IfReturns}
use buaa_os.Memory.{page_alloc, page_insert, map_page, pgdir_walk, pa2page}
use buaa_os.Kernel.{Kernel}
use buaa_os.Kernel.Tests.{three}
use buaa_os.Kernel.Load.{init_lists, free_envs, map_pages, map_segment, must, env_init}
use buaa_os.Kernel.Load.Start.{Started, env_init-Started}

-- 128 pages, four of them free, before any environment is set up.
abbrev at_boot : Kernel
at_boot = record three {
  mem = record {
    npage = 128;
    frame = λ p j. 0;
    pp_ref = λ p. 0;
    page_free_list = 100 ∷ 101 ∷ 102 ∷ 103 ∷ [];
    tlb = [];
  };
}

abbrev ends : Outcome Kernel (Unit {0}) → Bool
ends (done a k) = true
ends (fail e k) = false
ends panic = false

env_init_ends : ends (env_init 0x10000 0x20000 0xe0 at_boot) ≡ true
unfolding env_init init_lists free_envs map_segment map_pages must page_alloc page_insert map_page
    pgdir_walk pa2page
env_init_ends = refl

env_init-Started_example :
    Returns (λ _ k. Started k) (init_lists at_boot)
    × IfReturns (λ _ k. Started k) (env_init 0x10000 0x20000 0xe0 at_boot)
env_init-Started_example = env_init-Started 0x10000 0x20000 0xe0 at_boot
