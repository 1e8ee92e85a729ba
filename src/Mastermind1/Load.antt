-- ===== src/Mastermind1/Load.antt =====
-- Loading and unloading the module of proj1/mastermind.c.
use cmsc421_os.Prelude.{◌≡◌, ◌↔◌, true, false, arith, ◌&&◌}
use cmsc421_os.Mastermind1.Device.{
  nothing_held, Answers, mastermind_init, mastermind_exit, deregister_mm, deregister_ctl,
}

-- Loading succeeds exactly if the kernel grants all three requests; it then holds all three, and
-- unloading gives each back once.
pub mastermind_init-loaded :
    (a : Answers)
    → ((mastermind_init a nothing_held).0 ≡ true) ↔ (
        (a.page ≡ true)
        × (a.mm ≡ true)
        × (a.mm_ctl ≡ true)
        × (mastermind_exit (mastermind_init a nothing_held).1 ≡ nothing_held))
unfolding mastermind_init mastermind_exit deregister_mm deregister_ctl
mastermind_init-loaded a = (λ e. ground arith, λ h. ground arith)

-- If the page is granted and a registration fails, the clean-up leaves nothing held, but gives back a device that was never
-- registered.
pub mastermind_init-unmatched :
    (a : Answers)
    → a.page ≡ true
    → (a.mm && a.mm_ctl) ≡ false
    → mastermind_init a nothing_held ≡ (false, record nothing_held { unmatched = 1 })
unfolding mastermind_init deregister_mm deregister_ctl
mastermind_init-unmatched a page failed = ground arith
