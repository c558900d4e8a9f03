-- ===== src/Providers.antt =====
-- services/providers/provider.rs: the requests to the models and how their answers are read. Prompt
-- has the texts, Wire the JSON of a request, Answer the JSON of an answer, Send what is made of the
-- HTTP answers, Call the seven calls and `analyze_action`; the other modules hold proofs.
pub mod Prompt
pub mod Wire
pub mod Answer
pub mod Send
pub mod Call
pub mod Retries
pub mod Said
pub mod Tagged
