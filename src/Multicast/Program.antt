-- ===== src/Multicast/Program.antt =====
-- What `lnc_set_multicast` gives the chip.
use maxxuss_amdpcnet_v.Base.{
  ℕ, zero, suc, ◌+◌, ◌*◌, ◌≤◌, ◌^◌, bit_or, ap₂, List, Option, ◌≡◌, refl, arith,
}
use maxxuss_amdpcnet_v.World.{Env}
use maxxuss_amdpcnet_v.State.{PcNet}
use maxxuss_amdpcnet_v.Port.{write_csr, pcnet32_stop, pcnet32_start}
use maxxuss_amdpcnet_v.Multicast.{lnc_set_multicast, lnc_setladrf, write_filter, ladrb_at}
use maxxuss_amdpcnet_v.Multicast.Filter.{lnc_setladrf-frame}

-- Two states that the registers cannot tell apart.
abbrev Alike : PcNet → PcNet → Type 0
Alike s t = (s.trace ≡ t.trace) × (s.sc.dwio ≡ t.sc.dwio)

write_csr-Alike :
    (port v w : ℕ) (s t : PcNet)
    → v ≡ w
    → Alike s t
    → Alike (write_csr port v s) (write_csr port w t)
unfolding write_csr
write_csr-Alike port v w s t e h = ground arith

pcnet32_start-Alike : (s t : PcNet) → Alike s t → Alike (pcnet32_start s) (pcnet32_start t)
unfolding pcnet32_start
pcnet32_start-Alike s t h = ground arith

module _ (env : Env) where
  past-Alike : (i : ℕ) (s t : PcNet) → 8 ≤ i → Alike s t → ladrb_at env s i ≡ ladrb_at env t i
  past-Alike i s t hi h = ground arith

  write_filter-Alike :
      (n i : ℕ) (s t : PcNet)
      → 8 ≤ i * 2
      → Alike s t
      → Alike (write_filter env n i s) (write_filter env n i t)
  unfolding write_filter
  write_filter-Alike zero i s t hi h = h
  write_filter-Alike (suc n) i s t hi h = write_filter-Alike n (i + 1) _ _ (omega arith) (
      write_csr-Alike i _ _ s t
        (ap₂ (λ x y. bit_or (x * 2 ^ 8) y) (past-Alike (i * 2 + 1) s t (omega arith) h)
          (past-Alike (i * 2) s t hi h))
        h)

  lnc_setladrf-Alike :
      (a b : Option (List (List ℕ))) (s : PcNet) → Alike (lnc_setladrf a s) (lnc_setladrf b s)
  lnc_setladrf-Alike a b s = rw (lnc_setladrf-frame a s, lnc_setladrf-frame b s) (refl, refl)

  -- From any state, the calls for two multicast lists leave the same history of register accesses:
  -- what the chip is given does not depend on the addresses.
  pub lnc_set_multicast_ignores_addresses :
      (a b : Option (List (List ℕ))) (s : PcNet)
      → (lnc_set_multicast env a s).trace ≡ (lnc_set_multicast env b s).trace
  unfolding lnc_set_multicast
  lnc_set_multicast_ignores_addresses a b s =
      (pcnet32_start-Alike _ _
        (write_filter-Alike 4 8 _ _ (omega arith) (lnc_setladrf-Alike a b (pcnet32_stop s)))).0
