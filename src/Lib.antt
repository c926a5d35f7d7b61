-- ===== src/Lib.antt =====
-- Verification of ipmitool: the C implementation under lib/ and src/plugins/.
--
-- ipmitool sends IPMI requests to a management controller (BMC) and reads its responses. A request
-- is an IPMB message, direct or wrapped in Send Message requests by the addressing of the
-- interface; an interface frames it for its medium, sends it, and finds the response in what
-- comes back. Four interfaces are modelled, with what they share.
--
-- Common holds what every module shares: Boolean tests (Tests), lists over the native numbers
-- (Lists), bytes and sums (Bytes), facts about bits by evaluation (Bits), the signed C types (Int).
-- Checksum is `ipmi_csum` of lib/helper.c, Hex `buf2str_extended` and `ipmi_parse_hex` there.
-- Intf is the addressing of an interface and the sizes of data, src/plugins/ipmi_intf.c:
-- `ipmi_intf_get_bridging_level`, and in Sizes `ipmi_intf_get_max_request_data_size` and its kin.
--
-- Serial is the basic mode of the serial interface, src/plugins/serial/serial_basic.c. A request
-- is built (Message: `serial_bm_build_msg`) and framed (Frame: `serial_bm_send_msg`); the byte
-- stream is read and parsed (Receive: `serial_bm_recv_msg`, Parse: `serial_bm_parse_buffer`)
-- and a message is tested against the request (Response: `serial_bm_wait_response`). Setup is
-- `serial_bm_setup`. The state is the parser's context, the receive buffer and the header of the
-- request. Serial/Terminal is the terminal mode, src/plugins/serial/serial_terminal.c: lines and the
-- text of responses (`serial_read_line`, `recv_response`), the search for the awaited one
-- (`serial_term_wait_response`), in Message `serial_term_build_msg`, and in Command
-- `ipmi_serial_term_send_cmd` with the queue of a system interface (`serial_term_get_message`).
-- TextLaws, WaitLaws and TotalLaws are about what is received, CommandLaws, SendLaws, EnclosedLaws
-- and Returns about commands; the state is the counter of sequence numbers.
--
-- Lanplus is the RMCP+ interface, src/plugins/lanplus. Crypto holds what is relied on of OpenSSL,
-- as an interface of functions and laws that the other modules take as a parameter; Encrypt,
-- Rakp and Authcode are lanplus_crypt.c; Session, Packet, Read, Request, Ciphers and Sizes are
-- lanplus.c: the packet as `ipmi_lanplus_build_v2x_msg` writes it and `ipmi_lan_poll_single` reads
-- it, the request of `getIpmiPayloadWireRep`, the cipher suites and the sizes of data. Open is the
-- exchange that opens a session (`ipmi_lanplus_open_session`, `ipmi_lanplus_rakp1`,
-- `ipmi_lanplus_rakp3`) with the other end as a parameter, Open/Sequence the rounds of
-- `ipmi_lanplus_open`, which have fuel for exactly IPMI_LAN_RETRY of them as the loop has. Delivery
-- puts sending and receiving together. Sol is serial over LAN: the wire form, sending with partial
-- acknowledgements, and the removal of data that was received before. Entries is the linked list
-- of pending requests (`ipmi_req_add_entry`, `ipmi_req_lookup_entry`, `ipmi_req_remove_entry`,
-- `ipmi_req_clear_entries`) with its nodes in a store, and Entries/Queue the queue it represents.
--
-- Fru is lib/ipmi_fru.c, the inventory of a device: Read and Area are `read_fru_area` and
-- `read_fru_area_section`, Write `write_fru_area`, Blocs `build_fru_bloc`, Text
-- `get_fru_area_str`; ReadLaws, AreaLaws, WriteLaws, BlocLaws and TextLaws are about them. What a
-- device answers is a parameter of these: Serving and Storing say what a device with a memory does.
-- Slices is about the parts of a buffer.
--
-- Sdr is lib/ipmi_sdr.c, the repository of sensor data records: `ipmi_sdr_get_reservation`,
-- `ipmi_sdr_get_next_header` and `ipmi_sdr_record_length_valid`, and in Record
-- `ipmi_sdr_get_record`, with the controller as a parameter, of which Controller says what it does.
--
-- Hpm is lib/ipmi_hpmfwupg.c, the upgrade of firmware: the results and the polls of a long command
-- (`HpmfwupgWaitLongDurationCmd`), Block the commands of an upload (`HpmfwupgUploadFirmwareBlock`),
-- Upload the upload of a component (`HpmFwupgActionUploadFirmware`), Stage the integrity of an image
-- and the walk over its records (`HpmfwupgUpgradeStage`). Runs and Bounds are about what is read of
-- the image, Accepting is a target that takes firmware, Rounds, UploadLaws, Commands and ActionLaws
-- what is uploaded to it; Records, Actions and StageLaws are about an image by its records.
--
-- Lan is the interface of IPMI v1.5, src/plugins/lan/lan.c and auth.c: `ipmi_lan_build_cmd` and in
-- Receive `ipmi_lan_poll_recv`; the state is the session and the pending requests. Nested and
-- BuildLaws are about the packet, EntryLaws about the entries of retries, ReceiveLaws, Hops and
-- Unwrap about responses to bridged requests.
--
-- Tests holds runs on concrete inputs.
--
-- Conventions: bytes and words are native numbers with the wrap-around of their C type written
-- out; a function that is ended by an assertion, by a read or a write outside its array, or by an
-- error has a result of its own for that. The loops of the terminal mode have fuel for the characters
-- of a line and for the events of the port. A port and a network are sequences of events: the
-- outcomes of `poll` and `read` for the serial port, the replies of
-- `ipmi_lanplus_send_payload` for serial over LAN. All loops are structural on their input or on
-- these sequences, but for those over the linked list, which have fuel for its entries, and those
-- of Fru, Sdr and Hpm, which have fuel for requests: enough for the bytes that are asked for and the
-- first size of a request, since every request brings a byte or makes the size smaller; for Sdr
-- also for the lost reservations, which the source does not bound, and for Hpm for the tries of a
-- block; the walk over an image has a round for every byte of it, and a wait for a long command as
-- many polls as its fuel.
--
-- Not modelled: opening of devices and sockets, timeouts, retries of a payload, logging; the
-- other interfaces; the other commands under lib/, which send
-- requests through an interface and print replies; the tables of names. They are input and
-- output, vendor commands, or parts that are left out.
mod Common
pub mod Checksum
pub mod Intf
pub mod Serial
pub mod Fru
pub mod Hex
pub mod Sdr
pub mod Hpm
pub mod Lan
pub mod Lanplus
mod Tests
