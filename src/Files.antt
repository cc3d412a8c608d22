-- ===== src/Files.antt =====
-- lib/tftp/files: data handlers over memory and over files.
pub mod Contracts
pub mod MemoryFile
pub mod NullSinkFile
pub mod StreamFile

-- `File::Operation`.
pub data FileOperation : Type 0 where
  receiving_file transmitting_file : FileOperation
