-- ===== src/Tap/Examples.antt =====
-- A configuration whose netmask the kernel refuses.
use dpdk_wrapper_library.Base.{
  ◌≡◌, ◌+◌, ◌-◌, ◌^◌, arith, [], ◌∷◌, ◌++◌, some, true, false, ◌⊎◌, codes, refl,
}
use dpdk_wrapper_library.Tap.Closed.{Enclosed, configure_kernel_interface-Enclosed}
use dpdk_wrapper_library.Tap.Netmask.{netmask-hosts}
use dpdk_wrapper_library.Tap.{
  opens_socket, closes_socket, sets_address, sets_netmask, Kernel, bad_name, bad_prefix,
  socket_failed, netmask_failed, configure_kernel_interface, netmask,
}

abbrev kernel : Kernel
kernel = record { succeeds = λ calls c. elim c [ sets_netmask m ↦ false | _ ↦ true ]; flags = 0 }

refused : configure_kernel_interface kernel (codes "dtap0") 0x0a000001 24 [] ≡ (
  some netmask_failed,
  opens_socket ∷ sets_address 0x0a000001 ∷ sets_netmask 0xffffff00 ∷ closes_socket ∷ [],
)
unfolding configure_kernel_interface
refused = refl

configure_kernel_interface-Enclosed_example :
    let r = configure_kernel_interface kernel (codes "dtap0") 0x0a000001 24 [] in
    ((r ≡ (some bad_name, [])) ⊎ (r ≡ (some bad_prefix, [])))
    ⊎ ((r ≡ (some socket_failed, [] ++ opens_socket ∷ [])) ⊎ Enclosed kernel 0x0a000001 24 [] r)
configure_kernel_interface-Enclosed_example =
    configure_kernel_interface-Enclosed kernel (codes "dtap0") 0x0a000001 24 []

netmask-hosts_example : netmask 24 + 2 ^ (32 - 24) ≡ 2 ^ 32
netmask-hosts_example = netmask-hosts 24 (omega arith)
