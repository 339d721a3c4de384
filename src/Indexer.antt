-- ===== src/Indexer.antt =====
-- src/noxipher/indexer: the queries of the indexer and their retries, the documents that they send
-- and the models that answers are read by.
pub mod Client
pub mod Retries
pub mod Documents
pub mod Models
pub mod Answers
pub mod Unread
pub mod PlainModels
pub mod SampleAnswers
mod Tests
