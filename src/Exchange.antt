-- ===== src/Exchange.antt =====
-- The matching engine: project4_stockexchange/docker-deploy/matching-engine/database.cpp.
pub mod Columns
pub mod Tables
pub mod Creation
pub mod Orders
pub mod Matching
pub mod Requests
pub mod Xml
pub mod Client
pub mod Lines
pub mod ClientLaws
pub mod Decoding
pub mod Reading
pub mod Refusals
pub mod Threads
pub mod Overlap
pub mod Main
pub mod MainLaws
pub mod Answers
pub mod Nesting
pub mod Markup
pub mod Replies
pub mod ReplyMarkup
pub mod AnswerLaws
pub mod Decimal
pub mod Digits
pub mod Ids
pub mod Conserve
pub mod Validity
pub mod Service
pub mod CreationLaws
pub mod Trades
pub mod Overfill
pub mod Money
pub mod Reports
pub mod Priority
pub mod Sort
pub mod Rows
pub mod Rule
mod Tests
