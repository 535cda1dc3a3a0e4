-- ===== src/Tests.antt =====
-- Runs of the model on concrete inputs.
mod RequestLine
mod HttpRequest
mod Dict
mod Dictionary
mod OsString
mod AtomicList
mod Headers
mod HashTable
mod Lifecycle
mod TimedQueue
mod Processor
mod Config
mod EventLoop
mod Accepting
mod Polling
mod SpinLock
mod Startup
