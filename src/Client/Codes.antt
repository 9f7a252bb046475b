-- ===== src/Client/Codes.antt =====
-- crates/gp-client/src/lib.rs: the codes that the client's functions return.
use rustee.Prelude.{ℕ}

abbrev pub teec_success : ℕ
teec_success = 0

abbrev pub teec_error_bad_parameters : ℕ
teec_error_bad_parameters = 0xFFFF0006

abbrev pub teec_error_communication : ℕ
teec_error_communication = 0xFFFF000E

abbrev pub teec_error_out_of_memory : ℕ
teec_error_out_of_memory = 0xFFFF000C

abbrev pub teec_error_busy : ℕ
teec_error_busy = 0xFFFF000D

abbrev pub teec_origin_tee : ℕ
teec_origin_tee = 3
