-- ===== src/Lib.antt =====
-- nfsclient, a user-space NFS client in C++: the protocol stack below its public classes.
--
-- The program is layered. src/xdr encodes and decodes XDR items in byte buffers. src/rpc builds ONC
-- RPC call messages, frames them with record marks, sends them over a TCP socket, receives a reply
-- record and takes it apart. src/nfs encodes the arguments and decodes the results of each NFS
-- version 3, MOUNT and portmap procedure and calls them through src/rpc; src/nfs_client.cpp puts a
-- class on top. src/nfs4, src/nfs4_client.cpp and src/nfs41_client.cpp do the same for NFS versions
-- 4.0 and 4.1.
--
-- Files, and the sources that they model:
--   Base, Errors, Exec: shared lemmas, the exceptions and faults, actions on a state that may throw.
--   Errors/Status3, Errors/Status4: the status codes of src/nfs/nfs_error.hpp and
--     src/nfs4/nfs4_error.hpp.
--   Xdr/Encoder, Xdr/Decoder: `XdrEncoder` and `XdrDecoder` of src/xdr. A byte is a number. A decoder
--     is a buffer and an offset; a load outside the buffer is a fault, which C++ leaves undefined.
--   Xdr/Wire: RFC 4506, written without the encoder. Xdr/Emits, Xdr/Reads, Xdr/Safe, Xdr/Carries: the
--     rules for sequences of `put_` and `get_` calls that all later proofs use.
--   Rpc/Message: src/rpc/rpc_types.hpp, `buildCallMessage` and `addRecordMark`. Rpc/Reply:
--     `parseReply`. Rpc/Socket: `sendAll` and `recvRecord`. Rpc/Client: the class `TcpRpcClient`, whose
--     state is the socket, `xid_` and `auth_sys_`. Rpc/Network: a client that lives for one block.
--     Rpc/Transport: the interface that the protocols use of a connection.
--   Nfs3/Types: src/nfs/nfs3_types.hpp. Nfs3/Files, Nfs3/Names, Nfs3/Info, Nfs3/Listing: encoders of
--     arguments and decoders of replies in src/nfs/*.cpp. Nfs3/Calls: the functions that call.
--     Pages and Nfs3/Directory: the listing loops of readdir.cpp and readdirplus.cpp. Nfs3/Mount:
--     mount.cpp and portmap.cpp. Nfs3/Client: `NFSClient` of src/nfs_client.cpp.
--   Nfs4/Types, Nfs4/Bitmap, Nfs4/Attr: src/nfs4/nfs4_types.hpp and nfs4_attr.cpp. Nfs4/Ops: the
--     operations of a COMPOUND in src/nfs4, with their results. Nfs4/Compound: compound.cpp.
--     Nfs4/State: open.cpp and setclientid.cpp. Nfs4/Session: session41.cpp.
--   Nfs4/Requests: the operations and decoders of each method, which the two clients share.
--     Nfs4/Calls: the same methods as RFC 7530 has them, in bytes. Nfs4/Attr/Bytes: the attributes that a
--     client sets, in bytes. Nfs4/Grace: the loop that sends OPEN
--     again while the server is in its grace period.
--   Nfs4/Client: `Nfs4Client` of src/nfs4_client.cpp, whose state is the connection, `clientid_` and
--     `open_seqid_`; Nfs4/Client/Setup has its constructors. Nfs41/Client: `Nfs41Client` of
--     src/nfs41_client.cpp, which has the session id and `slot_seqid_` as well; Nfs41/Setup has its
--     constructors and its destructor. Both are over the interface of Rpc/Transport.
--   Bench: tools/bench. Bench/Stats: the class `Reservoir`. Bench/Client: what the workloads use of
--     `NFSClient`. Bench/Fill and Bench/Workloads: the six workloads, whose loops run as many rounds
--     as they get through before they are stopped. Bench/Run: the threads of `run_workload`.
--   Tests: runs at small inputs, with a connection that moves a few bytes at a time.
--
-- Strings are lists of bytes. An enum with a fixed underlying type holds any word, so what is read
-- from the wire into one is a number. `std::optional`, and a value beside its flag, is an option.
--
-- Bounds and fuel. The loops of `sendAll` and of the two reads in `recvRecord` get as much fuel as
-- bytes are wanted, and one more: each round moves a byte at least. The linked lists get the length
-- of the buffer and one more: each round reads four bytes at least. The fragments of a reply, the
-- pages of a listing and the rounds of a grace period are bounded by the peer alone, so their fuel is
-- an argument, and a loop that it
-- does not suffice for ends in a fault; the theorems give the fuel that is enough.
--
-- Parameters: `send`, `recv`, `connect` and `close` of the system (`Socket` and `Network`). A
-- reliable connection (`IsReliable`) is what a blocking TCP socket promises while it stands;
-- `IsBounded` says of `recv` that it gives no more than it is asked for. Of the benchmark: `std::sort`,
-- `std::to_string`, the floating-point product behind an index, and, as the data of a round, what the
-- clock and the random engines say.
--
-- Not modelled: the text of messages, memory exhaustion, the command
-- line programs, the printing of the benchmark, the compliance tools and the tests. Sleeping between two
-- rounds of the grace period has no effect in the model, and the count of the steady clock that the
-- constructors of the version 4 clients read is an argument of theirs.
pub mod Bench
pub mod Base
pub mod Errors
pub mod Exec
pub mod Xdr
pub mod Rpc
pub mod Pages
pub mod Nfs3
pub mod Nfs4
pub mod Nfs41
mod Tests
