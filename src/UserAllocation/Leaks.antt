-- ===== src/UserAllocation/Leaks.antt =====
-- Registrations and memory under the calls of include/hwmalloc/detail/user_allocation.hpp, counted.
use hwmalloc.Base.{
  ℕ, suc, ◌-◌, ◌+◌, ◌≡◌, ◌≢◌, refl, true, false, not, ◌&&◌, Option, none, some, ◌==◌, if◌then◌else◌,
  arith, Bool-cases, inl, inr,
}
use hwmalloc.Numa.Tools.{Os}
use hwmalloc.Platform.{Context}
use hwmalloc.UserAllocation.{
  HostAllocation, UserAllocation, destroy_host, with_region, with_device_region, register_host,
  register_both, register_mirrored, deregister_device, release_user_allocation,
}

-- How many registrations and how many pieces of memory from malloc there are, and what the calls that
-- are used do to these numbers, as documented.
pub record Counts {W R H : Type 0} (os : Os W) (context : Context W R H) : Type 0 where
  pub regions : W → ℕ
  pub chunks : W → ℕ
  pub register_memory :
      (w : W) (ptr size : ℕ)
      → (regions (context.register_memory w ptr size).1
          ≡ regions w + (elim (context.register_memory w ptr size).0 [ none ↦ 0 | some r ↦ 1 ]))
        × (chunks (context.register_memory w ptr size).1 ≡ chunks w)
  pub register_device_memory :
      (w : W) (id ptr size : ℕ)
      → (regions (context.register_device_memory w id ptr size).1
          ≡ regions w
            + (elim (context.register_device_memory w id ptr size).0 [ none ↦ 0 | some r ↦ 1 ]))
        × (chunks (context.register_device_memory w id ptr size).1 ≡ chunks w)
  pub deregister :
      (w : W) (r : R)
      → (regions (context.deregister w r) ≡ regions w - 1)
        × (chunks (context.deregister w r) ≡ chunks w)
  pub malloc :
      (w : W) (size : ℕ)
      → (regions (os.malloc w size).1 ≡ regions w)
        × (chunks (os.malloc w size).1 ≡ chunks w + (if (os.malloc w size).0 == 0 then 0 else 1))
  pub free :
      (w : W) (ptr : ℕ)
      → ptr ≢ 0
      → (regions (os.free w ptr) ≡ regions w) × (chunks (os.free w ptr) ≡ chunks w - 1)

module _ {W R H : Type 0} (os : Os W) (context : Context W R H) (n : Counts os context) where
  open n use {regions, chunks}

  -- The pieces that a host allocation owns.
  abbrev owned : HostAllocation → ℕ
  owned a = if not (a.ptr == 0) && a.delete then 1 else 0

  destroy_host-counts :
      (a : HostAllocation) (w : W)
      → (regions (destroy_host os context a w) ≡ regions w)
        × (chunks (destroy_host os context a w) ≡ chunks w - owned a)
  unfolding destroy_host
  destroy_host-counts a w = elim (Bool-cases (not (a.ptr == 0) && a.delete)) [
    | inl owner ↦ rw owner (n.free w a.ptr (ground arith))
    | inr other ↦ rw other (refl, omega arith)
  ]

  -- Nothing is left of a call that threw, and the release of what a call returned leaves nothing:
  -- there are as many registrations and pieces of memory as at first.
  abbrev pub Clean : ℕ → ℕ → Option (UserAllocation R) × W → Type 0
  Clean rs cs (none, w) = (regions w ≡ rs) × (chunks w ≡ cs)
  Clean rs cs (some u, w) =
      (regions (release_user_allocation os context u w) ≡ rs)
      × (chunks (release_user_allocation os context u w) ≡ cs)

  abbrev taken : Option R → ℕ
  taken o = elim o [ none ↦ 0 | some r ↦ 1 ]

  -- A state with registrations and memory that were not there at first.
  abbrev Holds : ℕ → ℕ → ℕ → HostAllocation → W → Type 0
  Holds rs cs more host w = (regions w ≡ rs + more) × (chunks w ≡ cs + owned host)

  deregistered :
      (rs cs more : ℕ) (host : HostAllocation) (r : R) (w : W)
      → Holds rs cs (suc more) host w
      → Holds rs cs more host (context.deregister w r)
  deregistered rs cs more host r w h = let d = n.deregister w r in (omega arith, omega arith)

  destroyed :
      (rs cs : ℕ) (host : HostAllocation) (w : W)
      → Holds rs cs 0 host w
      → (regions (destroy_host os context host w) ≡ rs)
        × (chunks (destroy_host os context host w) ≡ cs)
  destroyed rs cs host w h = let d = destroy_host-counts host w in (omega arith, omega arith)

  with_device_region-Clean :
      (rs cs : ℕ) (host : HostAllocation) (r : R) (d : Option R × W)
      → Holds rs cs (suc (taken d.0)) host d.1
      → Clean rs cs (with_device_region os context host r d)
  unfolding with_device_region release_user_allocation deregister_device
  with_device_region-Clean rs cs host r (none, w) h =
      destroyed rs cs host (context.deregister w r) (deregistered rs cs 0 host r w h)
  with_device_region-Clean rs cs host r (some d, w) h =
      destroyed rs cs host (context.deregister (context.deregister w d) r)
        (deregistered rs cs 0 host r (context.deregister w d) (deregistered rs cs 1 host d w h))

  with_region-Clean :
      (rs cs : ℕ) (host : HostAllocation) (r : Option R × W)
      (next : R → W → Option (UserAllocation R) × W)
      → Holds rs cs (taken r.0) host r.1
      → ((q : R) (w : W) → Holds rs cs 1 host w → Clean rs cs (next q w))
      → Clean rs cs (with_region os context host r next)
  unfolding with_region
  with_region-Clean rs cs host (none, w) next h k = destroyed rs cs host w h
  with_region-Clean rs cs host (some q, w) next h k = k q w h

  register_both-Clean :
      (rs cs : ℕ) (host : HostAllocation) (w : W) (device_ptr device_id size : ℕ)
      → Holds rs cs 0 host w
      → Clean rs cs (register_both os context host w device_ptr device_id size)
  unfolding register_both
  register_both-Clean rs cs host w device_ptr device_id size h =
      let m = n.register_memory w host.ptr size in
      with_region-Clean rs cs host (context.register_memory w host.ptr size) _
        (omega arith, omega arith)
        (λ r v k.
          let d = n.register_device_memory v device_id device_ptr size in
          with_device_region-Clean rs cs host r
            (context.register_device_memory v device_id device_ptr size) (omega arith, omega arith))

  not_owned : (ptr : ℕ) → owned (record { ptr = ptr; delete = false }) ≡ 0
  not_owned ptr = elim (Bool-cases (ptr == 0)) [ inl null ↦ rw null refl | inr set ↦ rw set refl ]

  mirror_owned :
      (ptr : ℕ) → owned (record { ptr = ptr; delete = true }) ≡ (if ptr == 0 then 0 else 1)
  mirror_owned ptr = elim (Bool-cases (ptr == 0)) [
    | inl null ↦ rw null refl
    | inr set ↦ rw set refl
  ]

  register_host-Clean :
      (w : W) (ptr size : ℕ) → Clean (regions w) (chunks w) (register_host os context w ptr size)
  unfolding register_host release_user_allocation deregister_device
  register_host-Clean w ptr size =
      let host : HostAllocation = record { ptr = ptr; delete = false } in
      let m = n.register_memory w ptr size in
      with_region-Clean (regions w) (chunks w) host (context.register_memory w ptr size) _
        (omega arith, omega (arith, not_owned ptr))
        (λ r v k.
          destroyed (regions w) (chunks w) host (context.deregister v r)
            (deregistered (regions w) (chunks w) 0 host r v k))

  register_mirrored-Clean :
      (w : W) (device_ptr device_id size : ℕ)
      → Clean (regions w) (chunks w) (register_mirrored os context w device_ptr device_id size)
  unfolding register_mirrored
  register_mirrored-Clean w device_ptr device_id size =
      let m = n.malloc w size in
      register_both-Clean (regions w) (chunks w)
        (record { ptr = (os.malloc w size).0; delete = true }) (os.malloc w size).1 device_ptr
        device_id size (omega arith, omega (arith, mirror_owned (os.malloc w size).0))

  -- None of the three ways to register memory of the user leaks a registration or a piece of memory:
  -- after one that threw, and after the release of what one returned, there are as many of both as
  -- before. That holds also where malloc has no memory, and where the second registration throws.
  pub register-Clean :
      (w : W) (ptr device_ptr device_id size : ℕ)
      → Clean (regions w) (chunks w) (register_host os context w ptr size)
        × Clean (regions w) (chunks w) (
            register_both os context
              (record { ptr = ptr; delete = false })
              w
              device_ptr
              device_id
              size)
        × Clean (regions w) (chunks w) (register_mirrored os context w device_ptr device_id size)
  register-Clean w ptr device_ptr device_id size = (
    register_host-Clean w ptr size,
    register_both-Clean (regions w) (chunks w) (record { ptr = ptr; delete = false }) w device_ptr
        device_id size (omega arith, omega (arith, not_owned ptr)),
    register_mirrored-Clean w device_ptr device_id size,
  )
