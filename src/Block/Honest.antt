-- ===== src/Block/Honest.antt =====
-- What `data()` of src/lzx_block.cc meets on the way is never an error with `Status::Ok`.
use cxx_unlzx.Base.{ℕ, zero, suc}
use cxx_unlzx.Exec.Honest.{honest, Honest}
use cxx_unlzx.Decoder.LiteralTable.Honest.{read_literal_table-Honest}
use cxx_unlzx.Decoder.Decrunch.Honest.{decrunch-Honest}
use cxx_unlzx.Block.{Unpacking, next_table, account, unpack_once, unpack_loop}

next_table-Honest : (u : Unpacking) → Honest (next_table u)
unfolding next_table
next_table-Honest u = search (honest, read_literal_table-Honest) depth 16

account-Honest : (n : ℕ) (u : Unpacking) → Honest (account n u)
unfolding account
account-Honest n u = search honest

unpack_once-Honest : (total : ℕ) (u : Unpacking) → Honest (unpack_once total u)
unfolding unpack_once
unpack_once-Honest total u =
    search (honest, next_table-Honest, decrunch-Honest, account-Honest) depth 16

pub unpack_loop-Honest : (n total : ℕ) (u : Unpacking) → Honest (unpack_loop n total u)
unfolding unpack_loop
unpack_loop-Honest zero total u = tt
unpack_loop-Honest (suc n) total u =
    search (honest, unpack_once-Honest, unpack_loop-Honest n total) depth 16
