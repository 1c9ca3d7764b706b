-- ===== src/Node/Loop/Capture.antt =====
-- What the event loop of magnum-tcp/src/main.rs leaves in the capture file, and what it writes to the
-- device.
use magnus_tcp.Base.{ℕ, Option, none, some, List, [], ◌∷◌, ◌==◌, if◌then◌else◌}
use magnus_tcp.Retransmit.{is_nil}
use magnus_tcp.Pcap
use magnus_tcp.Pcap.Laws.{Capture}
use magnus_tcp.Tun.{done, failed}
use magnus_tcp.Node.Loop.{Platform, NodeEvent, readable, outbound}

abbrev written : Option (List ℕ) → ℕ → List ℕ → Option (List ℕ)
written capture micros packet = elim capture [
  | none ↦ none
  | some file ↦ some (Pcap.write_packet file micros packet)
]

-- The frames that pass the node in some events, up to the error that ends the loop: those that are
-- read and not empty, and those that frame its tasks' messages.
module _ {F C : Type 0} (p : Platform F C) where
  unfoldable pub passing : List NodeEvent → List Capture
  passing [] = []
  passing (readable (failed e) micros ∷ events) =
      let rest = passing events in if e == p.would_block then rest else []
  passing (readable (done raw) micros ∷ events) =
      let rest = passing events in
      if is_nil raw then rest else record { at = micros; packet = raw } ∷ rest
  passing (outbound msg now micros ∷ events) =
      record { at = micros; packet = p.frame msg } ∷ passing events
