-- ===== src/Db.antt =====
-- The tables of migrations/0001_init.sql and 0002_graph_integrity.sql as lists of rows, oldest first,
-- and the ways in which the storage code reaches them.
-- `Libs` has the functions of packages, `Tables` the rows, `Sql` the clauses of the statements, `Tx` what runs inside one transaction,
-- and `Action` a handler: a sequence of transactions, each of which may fail as a whole.
pub mod Tables
pub mod Libs
pub mod Sql
pub mod Order
pub mod Tx
pub mod Action
pub mod Keeps
pub mod Finds
