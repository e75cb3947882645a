-- ===== src/Errors.antt =====
-- What a call can end in: the exceptions that the sources throw (src/nfs/nfs_error.hpp,
-- src/nfs4/nfs4_error.hpp and the `std::runtime_error`s), and the faults that C++ leaves undefined.
pub mod Status3
pub mod Status4
use nfsclient.Base.{ℕ, String}

-- A `std::runtime_error`, by what its message says.
pub data Reason : Type 0 where
  buffer_underflow : Reason
  expected_reply : Reason
  message_denied : ℕ → Reason
  not_accepted : ℕ → Reason
  send_failed : Reason
  recv_mark_failed : Reason
  recv_data_failed : Reason
  connect_failed : Reason
  not_registered : ℕ → ℕ → Reason
  no_file_handle : String → Reason
  confirm_requested : Reason

-- `NfsError` and `Nfs4Error` carry the status and the name of the procedure.
pub data Exception : Type 0 where
  runtime_error : Reason → Exception
  nfs_error : ℕ → String → Exception
  nfs4_error : ℕ → String → Exception

-- No C++ value: a read outside a buffer, and a loop of the model that was cut off.
pub data Fault : Type 0 where
  out_of_bounds out_of_fuel : Fault

pub data Result {ℓ} (A : Type ℓ) : Type ℓ where
  ok : A → Result A
  err : Exception → Result A
  fault : Fault → Result A
