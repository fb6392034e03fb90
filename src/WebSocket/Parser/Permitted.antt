-- ===== src/WebSocket/Parser/Permitted.antt =====
-- What the protocol permits in a frame.
use oklib.Common.{length, ◌≤◌, ◌≡◌, true, false}
use oklib.WebSocket.{is_control_opcode, is_data_opcode, Options, Frame}

-- The frames that a peer may send under these options. The conditions are the protocol's; none
-- of them depends on the peer's role.
pub record IsPermitted (options : Options) (frame : Frame) : Type 0 where
  pub within : length frame.payload ≤ options.max_frame_payload
  pub control_short :
      is_control_opcode frame.opcode ≡ true → (frame.fin ≡ true) × (length frame.payload ≤ 125)
  pub no_rsv2 : frame.rsv2 ≡ false
  pub no_rsv3 : frame.rsv3 ≡ false
  pub rsv1_means_compressed :
      frame.rsv1 ≡ true → (options.enable_compression ≡ true) × (is_data_opcode frame.opcode ≡ true)
