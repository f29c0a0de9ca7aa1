-- ===== src/Manager/Metadata/Port.antt =====
-- cuttlefish/cfctl/src/daemon/manager.rs: the adb ports of the instances.
use fundroid.Prelude.{ℕ, ◌≡◌, ◌≤◌, arith}
use fundroid.Manager.Metadata.{adb_port_of}

-- Two ids from 1 to 99 have two different adb ports, whatever the base port, in spite of the
-- wrap-around at 65536.
pub adb_port_of-injective :
    (base i j : ℕ) → i ≤ 99 → j ≤ 99 → adb_port_of base i ≡ adb_port_of base j → i ≡ j
unfolding adb_port_of
adb_port_of-injective base i j hi hj same = omega arith
