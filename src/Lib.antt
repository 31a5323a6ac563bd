-- ===== src/Lib.antt =====
-- Verification of the Self-Optimizing Competitive Intelligence Engine.
--
-- The engine is a Python service (core/): a domain layer, use cases and agents, and an
-- infrastructure layer that limits, guards, balances and caches the work. This library models the
-- parts that keep state of their own, most of them in the infrastructure, the workflows of the agents,
-- and values of the domain; paths are from the repository's root.
--
--   Base            lists, integers, texts as keys of a dict, and Boolean tests.
--   RateLimit       core/infrastructure/rate_limiting/limiter.py. TokenBucket, SlidingWindow and
--                   FixedWindow are the three limiter classes, Metrics their counters, Quota is
--                   ClientQuota and QuotaManager, Manager is RateLimitManager, which gives every
--                   endpoint a bucket and a window. Requests has the requests and clocks of the
--                   proofs.
--   Resilience      core/infrastructure/resilience/patterns.py. Coroutine is asyncio's lock and the
--                   ways a coroutine can end; Breaker is CircuitBreaker, Bulkhead is Bulkhead, Retry
--                   is Resilience.execute, which runs a function through the other two.
--   Balancing       core/infrastructure/distributed/load_balancing.py. Registry is ServiceRegistry,
--                   Selection is LoadBalancer, which selects among the instances that the registry
--                   calls healthy, and Health is the loop of HealthChecker, which decides that.
--   Cache           core/infrastructure/caching/cache.py: InMemoryCache.
--   Workers         core/infrastructure/scaling/workers.py. Workers itself is WorkerPool and its tasks,
--                   Scheduler is JobScheduler, which submits to the pool.
--   Access          core/infrastructure/security/rbac.py: Permission, Role, User and RBACManager.
--   Scaling         core/infrastructure/scaling/orchestration.py: ScalingOrchestrator, its policies
--                   and its loop, pass by pass.
--   Tiers           core/infrastructure/advanced_caching/multi_tier.py: MultiTierCache over any two
--                   caches that keep the laws of Tiers.Interface, and CacheCoherencyManager in
--                   Versions. Tiers.InMemory makes InMemoryCache, with its clock, one of the two.
--   Deployment      core/infrastructure/deployment/pipeline.py: DeploymentPipeline, with
--                   DeploymentMonitor in Monitor and CanaryDeployment in Canary.
--   Secrets         core/infrastructure/security/encryption.py: EncryptionService, SecretsVault and
--                   SecureConfigManager over the cryptography of Secrets.Interface, and
--                   DataMaskingService in Masking.
--   Workflows       core/application/orchestrators/__init__.py: WorkflowOrchestrator, with TaskScheduler
--                   in Scheduler and AgentCommunicator in Communicator.
--   Broker          core/infrastructure/messaging/broker.py: InMemoryBroker and its consumers.
--   Router          core/infrastructure/messaging/router.py: MessageRouter and its middlewares.
--   Values          core/domain/value_objects/: Confidence and Money.
--   Policies        core/domain/entities/agent_policy.py: AgentPolicy, and how it learns in Learning.
--
-- A class is a record with a field for each attribute, and a method is a function of the same name
-- on it. A method that changes the object returns the new one, beside its answer if it has one. A
-- Python dict is a list of its entries in order, and an exception is a value of the answer. Where
-- objects are shared (Balancing.Registry, Deployment, Broker) a reference is a number, and the heap
-- or what is kept of the object is a part of the state.
--
-- What is not the repository's code is a parameter, with what it promises where that is needed: the
-- commands of a pipeline, the agents, the handlers of messages, cryptography and encodings.
--
-- Each reading of the clock is an argument, in whole microseconds, as are the random draws, the
-- hashes and the results of network requests. Floats are exact: integers in a finer unit, or
-- fractions of a numerator and a denominator. Numbers are unbounded, as in Python.
--
-- Tasks of one event loop interleave where they suspend. A step relation has one step for each
-- stretch of code between two such points, and Reach is its closure, so that what is shown of it
-- holds of any number of tasks in any order. Loops run over lists or count down the attempts that
-- are left, and end by their structure; nothing runs on fuel.
--
-- Not modelled: log output, singletons and their locks, clients of external services (redis, pika,
-- SQLAlchemy, language models, browsers), the statistics of the analytics and machine learning
-- parts, which are numerical code over libraries, the HTTP and command-line interfaces, and the
-- domain's entities other than AgentPolicy. Retries are modelled for calls with no other task in
-- between, and so are the passes of JobScheduler; a function that is called is represented by how it
-- ends.
pub mod Base
pub mod RateLimit
pub mod Resilience
pub mod Balancing
pub mod Cache
pub mod Workers
pub mod Access
pub mod Scaling
pub mod Tiers
pub mod Deployment
pub mod Secrets
pub mod Workflows
pub mod Broker
pub mod Router
pub mod Values
pub mod Policies
