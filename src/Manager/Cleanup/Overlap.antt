-- ===== src/Manager/Cleanup/Overlap.antt =====
-- cuttlefish/cfctl/src/daemon/manager.rs: the patterns by which pkill and pgrep look for processes.
use fundroid.Prelude.{ℕ, ◌+◌, ◌*◌, ◌≤◌, ◌<◌, ◌≡◌, [], ◌∷◌, ◌++◌, refl}
use fundroid.Text.{Text}
use fundroid.Text.Numbers.{show}
use fundroid.Text.Numbers.RoundTrip.{show-digit}
use fundroid.Protocol.{InstanceId}
use fundroid.Manager.Cleanup.{lit, guest_process_patterns}

-- Three of the five patterns of an instance are prefixes of those of the ten instances whose number
-- has one digit more: `cvd-1` is found in `cvd-10`, so that a cleanup of the one instance kills
-- processes of the other.
pub guest_process_patterns-overlap :
    (i : InstanceId) (d : ℕ)
    → 1 ≤ i
    → d < 10
    → (a b u v c : Text) × (u' v' : Text) × (guest_process_patterns i ≡ a ∷ b ∷ u ∷ v ∷ c ∷ [])
      × (guest_process_patterns (i * 10 + d)
          ≡ (a ++ ((b'0' + d) ∷ []))
            ∷ (b ++ ((b'0' + d) ∷ []))
            ∷ u'
            ∷ v'
            ∷ (c ++ ((b'0' + d) ∷ []))
            ∷ [])
unfolding guest_process_patterns lit show
guest_process_patterns-overlap i d positive digit = (
  _,
  _,
  _,
  _,
  _,
  lit "/var/lib/cuttlefish/instances/" ++ (show (i * 10 + d) ++ lit "/"),
  lit "/var/lib/cuttlefish/assembly/" ++ (show (i * 10 + d) ++ lit "/"),
  refl,
  rw (show-digit i d (i * 10 + d) positive digit refl) refl,
)
