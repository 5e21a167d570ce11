-- ===== src/Examples/Setup.antt =====
-- The driver's start, the chip's registers after it, a start that fails, and an adapter that is turned off.
use maxxuss_amdpcnet_v.Base.{
  ℕ, ◌+◌, ◌*◌, ◌^◌, ◌≡◌, refl, arith, Bool, true, false, has, bit_and, ◌++◌, some, none, u32,
}
use maxxuss_amdpcnet_v.Hw.Registers.{
  init_block_address_low, init_block_address_high, feature_control, mode_prom,
}
use maxxuss_amdpcnet_v.Softc.{lnc_iff_promisc}
use maxxuss_amdpcnet_v.State.{PcNet}
use maxxuss_amdpcnet_v.Port.Written.{written}
use maxxuss_amdpcnet_v.Init.{lnc_init, lnc_pci_attach}
use maxxuss_amdpcnet_v.Adapter.{init_adapter, set_promiscuous_mode}
use maxxuss_amdpcnet_v.Adapter.Promiscuous.{set_promiscuous_mode_lem}
use maxxuss_amdpcnet_v.Init.Ready.{IsReady}
use maxxuss_amdpcnet_v.Init.Rings.{IsAllocated}
use maxxuss_amdpcnet_v.Init.Programmed.{features, lnc_init-written}
use maxxuss_amdpcnet_v.Lifecycle.{
  start, free, start_provider, start_opened, init_event_sources, init_interrupt, init_timer,
  allocate_descriptor_memory, start_chip_access,
}
use maxxuss_amdpcnet_v.Lifecycle.Release.{IsReleased, releases}
use maxxuss_amdpcnet_v.Lifecycle.Failure.{start_then_free}
use maxxuss_amdpcnet_v.Adapter.{shut_down}
use maxxuss_amdpcnet_v.Adapter.Down.{started_from, shut_down_keeps_running}
use maxxuss_amdpcnet_v.Softc.{lnc_iff_drv_running}
use maxxuss_amdpcnet_v.Port.{read_csr, pcnet32_start}
use maxxuss_amdpcnet_v.Init.{start_chip}
use maxxuss_amdpcnet_v.World.{Env, Call, make_buffer}
use maxxuss_amdpcnet_v.Lifecycle.Start.{IsOpened, start-IsOpened}
use maxxuss_amdpcnet_v.Examples.{quiet, soft, driver, soft-IsAllocated}

lnc_init-written_example :
    let t = lnc_init quiet (driver soft) in
    (low : ℕ) × (high : ℕ) × (written init_block_address_low t.trace ≡ some low)
    × (written init_block_address_high t.trace ≡ some high)
    × (high * 2 ^ 16 + low ≡ u32 0x4000_0200)
    × (written feature_control t.trace ≡ some features)
lnc_init-written_example = lnc_init-written quiet (driver soft) soft-IsAllocated

started : (start quiet (driver soft)).0 ≡ true
unfolding start start_provider start_opened init_event_sources init_interrupt init_timer
    allocate_descriptor_memory lnc_pci_attach start_chip_access init_adapter
started = refl

start-IsOpened_example :
    let t = (start quiet (driver soft)).1 in
    IsOpened quiet t
    × (t.pci_nub ≡ true)
    × (t.netif ≡ true)
    × IsAllocated t.sc
    × (u : PcNet) × (free t ≡ some u)
    × IsReleased u
    × (u.trace ≡ releases ++ t.trace)
start-IsOpened_example = start-IsOpened quiet (driver soft) (λ tr. (refl, omega arith)) started

set_promiscuous_mode_lem_example :
    let on = (set_promiscuous_mode quiet true (driver soft)).1 in
    let off = (set_promiscuous_mode quiet false on).1 in
    (has on.sc.init_block.mode mode_prom ≡ true)
    × (has on.sc.if_flags lnc_iff_promisc ≡ true)
    × (has off.sc.init_block.mode mode_prom ≡ false)
    × (has off.sc.if_flags lnc_iff_promisc ≡ false)
    × (bit_and off.sc.init_block.mode 0x7fff ≡ bit_and 0 0x7fff)
    × IsReady off.sc
set_promiscuous_mode_lem_example =
    set_promiscuous_mode_lem quiet (driver soft) 0x7fff soft-IsAllocated refl refl refl

-- An I/O Kit that has no memory for a buffer, and a driver before its start.
abbrev but_memory : Call → Bool
but_memory make_buffer = false
but_memory c = true

abbrev poor : Env
poor = record quiet { answer = λ tr c. but_memory c }

start_then_free_example :
    let s = driver (record soft { mem_descr = false }) in
    ((start poor s).0 ≡ false) × (free (start poor s).1 ≡ none)
start_then_free_example =
    start_then_free poor (λ tr. refl) (driver (record soft { mem_descr = false })) refl

-- A chip that is always done with its initialization, and a driver before its first one.
abbrev prompt : Env
prompt = record quiet { port16 = λ tr a. 0x0100; port32 = λ tr a. 0x0100 }

abbrev unmarked : PcNet
unmarked = driver (record soft { if_drv_flags = 0 })

start_chip_runs :
    (s : PcNet)
    → s.sc.if_drv_flags ≡ 0
    → has (start_chip prompt s).sc.if_drv_flags lnc_iff_drv_running ≡ true
unfolding start_chip read_csr pcnet32_start
start_chip_runs s h = ground (arith, h)

unmarked_runs : has (lnc_init prompt unmarked).sc.if_drv_flags lnc_iff_drv_running ≡ true
unmarked_runs = let (u, e, flags) = started_from prompt unmarked in rw e (start_chip_runs u flags)

shut_down_keeps_running_example :
    let up = lnc_init prompt unmarked in
    let t = shut_down prompt up in
    (has t.sc.if_drv_flags lnc_iff_drv_running ≡ true) × (t.sc ≡ up.sc)
shut_down_keeps_running_example = shut_down_keeps_running prompt unmarked refl unmarked_runs
