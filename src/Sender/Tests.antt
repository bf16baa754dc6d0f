-- ===== src/Sender/Tests.antt =====
-- A note for one connection.
use pimidi.Common.{ℕ, ◌+◌, ◌≡◌, refl, true, false, some, none, List, [], ◌∷◌, ◌++◌, arith, length}
use pimidi.Common.Memory.{done}
use pimidi.RtpPacket
use pimidi.MidiPayload
use pimidi.MidiPayload.RoundTrip.{with_bytes}
use pimidi.Journal.{init, has_data}
use pimidi.Connection.{Ctx, Env, idle, send}
use pimidi.Sender.{build, send_to, no_entry, plain_header}
use pimidi.Sender.Packet.{build-pack}
use pimidi.Sender.Sent.{counted, header_of, without_journal, send_to-received}

abbrev surroundings : Env
surroundings = record {
  now = 5000;
  random = λ k. 40;
  sock_info = λ ip_address port. [];
  ring_buffer_size = 0;
  memory = 77;
}

abbrev listener : Ctx
listener = record {
  status = idle;
  ssrc = 7;
  send_ssrc = 8;
  initiator = 9;
  seq = 65535;
  control_port = 5004;
  data_port = 5005;
  control_address = 10 ∷ 0 ∷ 0 ∷ 1 ∷ [];
  data_address = 10 ∷ 0 ∷ 0 ∷ 1 ∷ [];
  start = 1000;
  ip_address = none;
  name = none;
  journal = init;
  midi_state = none;
}

abbrev flags : MidiPayload.Header
flags = record { b = false; j = false; z = false; p = false; len = 3 }

abbrev note_bytes : List ℕ
note_bytes = 0x90 ∷ 60 ∷ 64 ∷ []

abbrev journal_bytes : List ℕ
journal_bytes = 0x20 ∷ 0 ∷ 1 ∷ []

build-pack_example :
    (payload out : List ℕ) × (MidiPayload.pack true (with_bytes flags note_bytes)
      ≡ done (some payload, length payload))
    × (RtpPacket.pack true (record {
      header = plain_header;
      payload_len = length (payload ++ journal_bytes);
      payload = payload ++ journal_bytes;
    })
        ≡ done (0, out, 12 + length (payload ++ journal_bytes)))
    × (build plain_header (with_bytes flags note_bytes).header note_bytes journal_bytes
        ≡ done (out, 12 + length (payload ++ journal_bytes)))
build-pack_example = build-pack plain_header flags note_bytes journal_bytes (omega arith)

no_data : has_data init ≡ false
unfolding has_data
no_data = refl

send_to-received_example :
    (packet payload : List ℕ) × (send_to surroundings false
        (with_bytes flags note_bytes)
        no_entry
        listener
      ≡ done (send (counted listener) packet (12 + length payload) false, counted listener))
    × (RtpPacket.unpack packet (12 + length payload)
        ≡ done (record {
          header = header_of surroundings listener;
          payload_len = length payload;
          payload = payload;
        }))
    × (MidiPayload.unpack true payload (length payload)
        ≡ done (some (with_bytes (without_journal flags) note_bytes)))
send_to-received_example =
    send_to-received surroundings flags note_bytes no_entry listener no_data (omega arith) refl
      (omega arith)
