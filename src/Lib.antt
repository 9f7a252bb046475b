-- ===== src/Lib.antt =====
-- A verification library for RUSTEE, a trusted execution environment in Rust: the privileged kernel
-- (crates/rustee-os), the wire protocol to the rich environment, the REE (crates/rustee-proto), the
-- guest's step from a message to a command and back, the client and its transport (crates/gp-client),
-- the supplicant of the host (host/rustee-supplicant), big integers and AES modes
-- (crates/rustee-crypto), and the encrypted storage of objects (crates/rustee-storage).
--
-- The program. A client in the REE writes a message into a shared pool and sends a call frame
-- (rustee-proto). The kernel turns each call into a command (open, invoke, close, cancel, or the answer
-- to a request of its own), runs it against its tables of sessions and TA instances, and calls the
-- entry points of trusted applications (TAs) or pseudo TAs. A TA is early (built in) or loaded from the
-- REE: the kernel asks for it, waits with the call in `yielding`, and on the answer verifies, parses,
-- maps and starts the image. On the host, the client's transport sends the frame and a window of the
-- pool over a stream and answers the guest's requests with the supplicant until the call completes.
--
-- Files.
--   Prelude, Prelude/Tests, Prelude/Lists, Prelude/Results, Prelude/Steps: numbers, Boolean tests, lists
--     over the native numbers, `Res`, the outcome of a function that returns a Result and may panic, and
--     `Step`, such a function with state.
--   Bytes, Bytes/Laws, Bytes/Writes: little-endian words, slices, writes into a byte string.
--   Slots, Slots/Laws: the array of optional entries with ids under both tables.
--   Os/Abi, Os/Abi/Params: crates/rustee-os/src/abi.rs.
--   Os/Header, Os/Header/TaHead, Os/Header/Envelope: crates/rustee-os/src/header.rs (parse_ta_head,
--     encode_ta_head, parse_rtsg, find_ta_head, elf64_section).
--   Os/Elf: crates/rustee-os/src/elf.rs (parse_elf, pt_load, ta_symbols, the blob of map_elf).
--   Os/Loader, Os/Loader/Signed, Os/Loader/Refusals: crates/rustee-os/src/loader.rs (load_image,
--     EarlyTas::get).
--   Os/Session, Os/Session/Table: crates/rustee-os/src/session.rs.
--   Os/Instance, Os/Instance/Table: crates/rustee-os/src/instance.rs.
--   Os/Kernel/Defs, Shm, Open, Invoke, Close, Handle: crates/rustee-os/src/lib.rs. Kernel::handle is
--     `handle`, its match is `dispatch`, and each method of Kernel is a function of the same name (open is
--     `open_session`) from a kernel to an answer and a kernel. Os/Kernel/Panic, Loading, Lost, Frame,
--     Gate, Idle and the files under Idle hold the proofs, Os/Kernel/Examples and Os/Tests concrete runs.
--   Proto, Proto/Frames, Messages, Decoder, Decoded, Tests: crates/rustee-proto/src/lib.rs.
--   Guest, Guest/Commands, Guest/Rpc, Guest/Answers, Guest/Tests: guest/rustee-guest/src/proto_cmd.rs
--     (decode_cmd; pack_load_ta, take_load_ta and write_done in Rpc).
--   Client/Wire and the files under it: crates/gp-client/src/wire.rs. StreamTransport::enter is `enter`,
--     its loop `enter_loop`. Pdus, Stamp, Serving, Ends and Stuck hold the proofs.
--   Client/Codes, Client/Loopback, Client/Context and the files under it: crates/gp-client/src/lib.rs.
--     Client/Tests: concrete runs over a pipe.
--   Supplicant, Supplicant/Messages: host/rustee-supplicant/src/lib.rs (files; messages and the hook).
--     Supplicant/LoadTa and FsMessages hold the proofs, Supplicant/Tests concrete runs.
--   Prelude/Int: the integers over the native numbers.
--   Crypto/Arith and the files under it: crates/rustee-crypto/src/arith.rs, slices of 32-bit words as
--     lists (Limbs: the loops over limbs; Bits and Division: shifts and modular arithmetic;
--     Magnitude, Signed and Bits/Digits: the numbers that slices stand for).
--   Crypto/Provider, Crypto/Modes and the files under them: crates/rustee-crypto/src/provider.rs and
--     AesKey::from_bytes and hkdf_sha256 of crates/rustee-crypto/src/lib.rs. Crypto/Tests: concrete runs.
--   Storage/Env: the file system, entropy source and provider behind crates/rustee-storage/src/lib.rs.
--   Storage/Format, Storage/Handle, Storage/Seal, Storage/Objects, Storage/Memory and the files under
--     them: crates/rustee-storage/src/lib.rs (paths and directory bytes; reads and writes of a handle;
--     keys and encrypted blobs; the operations of ReeFs, whose open is `open_object`; MemFs).
--   Storage/Rpc, Storage/Rpc/Files, Storage/Rpc/Whole: crates/rustee-storage/src/rpc.rs.
--   Storage/Rpc/FdMem: the client of RpcFs in the tests of crates/rustee-storage/src/lib.rs.
--   Storage/Tests: concrete runs.
--
-- Choices. The HAL, the TAs and the pseudo TAs are the record `Hal`: functions of a world that the
-- kernel threads through; the crypto provider is the record `Crypto`. A TA call returns, or the kernel's
-- panic handler runs with the kernel as the call left it. A byte is a number; words have their width in
-- the reads; `usize` has 64 bits and wraps, as in a release build, and a slice out of range is a
-- panic. Loops over counters recurse on the number of rounds left, so no fuel is needed, but for the two
-- loops of RpcFs: `put` has a step for each chunk and two more, and the reading loop takes its number of
-- steps as an argument. A table has
-- as many slots as `Kernel::new` gives it; ids are 32-bit words, and `bump_id` keeps the wrap.
--
-- The storage's state is what is left of the entropy source and the file system; third-party
-- primitives (AES blocks, AES-GCM, HMAC, HKDF) are the record `Primitives`.
--
-- The client's transport and the supplicant's host are records, too: `Socket` (read_exact and write_all),
-- `Transport`, `Host` (files, directories, clock). The loop of `enter` has a number of rounds; each takes a
-- PDU of at least 80 bytes from the stream, so as many rounds as bytes to come are enough.
--
-- Not modelled: device code (rustee-hal-virt, rustee-hal-tz), the guest's loop over calls, the system calls
-- that connect the client's vsock, its C functions (they only test a pointer), the extended GCD and
-- the primality test of big integers, public key operations, the TA runtime, the Linux driver, the
-- sample TA and the smoke tests; and of the kernel, console output and the address arithmetic inside the
-- HAL.
pub mod Prelude
pub mod Bytes
pub mod Slots
pub mod Os
pub mod Proto
pub mod Guest
pub mod Crypto
pub mod Storage
pub mod Client
pub mod Supplicant
